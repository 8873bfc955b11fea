-- ===== src/Observability/Audit/Chain/Pages.antt =====
-- The pages of `verify`.
use mathlib.Core.Path.{subst}
use agentic_local_app.Base.{
  ℕ, zero, suc, ◌+◌, ◌≤◌, ◌<◌, ◌≡◌, ◌↔◌, refl, sym, ap, ◌∙◌, if◌then◌else◌, true, false, Option,
  none, some, List, [], ◌∷◌, ◌++◌, arith, ok, err, Result, length, take, drop, take-append-drop,
  length-take, length-drop, get_or, ltb, Bool-cases, Option-cases, inl, inr,
}
use agentic_local_app.Observability.Audit.{
  HashInput, AuditEvent, AuditStore, AuditVerification, Reason, VerifyFault, index_error,
  PageResult, broken, intact, chain_of, above, last, list_audit_events, check_link, check_page,
  verify_from, verify, valid_after, genesis_hash,
}
use agentic_local_app.Observability.Audit.Chain.{IsChain, Ascends}

Ascends-lower :
    (low high : ℕ) (es : List AuditEvent) → low ≤ high → Ascends high es → Ascends low es
Ascends-lower low high [] h a = tt
Ascends-lower low high (e ∷ es) h a = (omega (arith, a.0), a.1)

above-Ascends : (m : ℕ) (es : List AuditEvent) → Ascends m es → above (some m) es ≡ es
above-Ascends m [] a = refl
above-Ascends m (e ∷ es) a =
    ground
      (arith, above-Ascends m es (Ascends-lower m e.hashed.sequence es (omega (arith, a.0)) a.1))

above-above :
    (after : Option ℕ) (m : ℕ) (es : List AuditEvent)
    → get_or after 0 ≤ m
    → above (some m) (above after es) ≡ above (some m) es
above-above none m es h = refl
above-above (some n) m [] h = refl
above-above (some n) m (e ∷ es) h = ground (arith, above-above (some n) m es h)

-- After a page, what is above its last event is what the page leaves.
above-drop :
    (k : ℕ) (low : ℕ) (es : List AuditEvent) (l : AuditEvent)
    → Ascends low es
    → last (take (suc k) es) ≡ some l
    → (above (some l.hashed.sequence) es ≡ drop (suc k) es)
      × (low < l.hashed.sequence)
      × Ascends l.hashed.sequence (drop (suc k) es)
above-drop k low [] l a h = cc
above-drop zero low (e ∷ es) l a h = ground (arith, above-Ascends e.hashed.sequence es a.1)
above-drop (suc k) low (e ∷ []) l a h = ground arith
above-drop (suc k) low (e ∷ f ∷ es) l a h =
    ground (arith, above-drop k e.hashed.sequence (f ∷ es) l a.1 h)

module _ (chain_hash : ℕ → HashInput → ℕ) where
  -- What the walk over a page tells of the page with anything after it.
  abbrev Walked : List AuditEvent → ℕ → ℕ → ℕ → PageResult → Type 0
  Walked page checked n previous (broken v) =
      (v.valid ≡ false)
      × ((more : List AuditEvent) → IsChain chain_hash n previous (page ++ more) → ⊥)
  Walked page checked n previous (intact c m p) =
      (c ≡ checked + length page)
      × ((more : List AuditEvent)
          → IsChain chain_hash n previous (page ++ more) ↔ IsChain chain_hash m p more)

  abbrev IsLink : AuditEvent → ℕ → ℕ → Type 0
  IsLink e n previous =
      (e.hashed.sequence ≡ n)
      × (e.hashed.previous_event_hash ≡ previous)
      × (e.event_hash ≡ chain_hash previous e.hashed)

  check_link-IsLink :
      (e : AuditEvent) (n previous : ℕ)
      → check_link chain_hash e n previous ≡ none
      → IsLink e n previous
  unfolding check_link
  check_link-IsLink e n previous h = ground arith

  link_broken :
      (e : AuditEvent) (n previous : ℕ) (reason : Reason)
      → check_link chain_hash e n previous ≡ some reason
      → IsLink e n previous
      → ⊥
  unfolding check_link
  link_broken e n previous reason bad l = ground arith

  after_link :
      (e : AuditEvent) (es : List AuditEvent) (checked n previous : ℕ) (r : PageResult)
      → IsLink e n previous
      → Walked es (checked + 1) (n + 1) e.event_hash r
      → Walked (e ∷ es) checked n previous r
  after_link e es checked n previous (broken v) l (f, never) = (f, λ more h. never more h.3)
  after_link e es checked n previous (intact c m p) l (q, iff) =
      (omega (arith, q), λ more. (λ h. (iff more).0 h.3, λ h. (l.0, l.1, l.2, (iff more).1 h)))

  check_page-Walked :
      (page : List AuditEvent) (checked n previous : ℕ)
      → Walked page checked n previous (check_page chain_hash page checked n previous)
  unfolding check_page
  check_page-Walked [] checked n previous = (omega arith, λ more. (λ h. h, λ h. h))
  check_page-Walked (e ∷ es) checked n previous =
      elim (Option-cases (check_link chain_hash e n previous)) [
        | inr (reason, bad) ↦
            rw (bad, Walked) (refl, λ more h. link_broken e n previous reason bad (h.0, h.1, h.2))
        | inl good ↦
            rw (good, Walked)
              (after_link e es checked n previous _ (check_link-IsLink e n previous good)
                (check_page-Walked es (checked + 1) (n + 1) e.event_hash))
      ]

last-none : (es : List AuditEvent) → last es ≡ none → length es ≡ 0
last-none [] h = refl
last-none (e ∷ []) h = cc
last-none (e ∷ f ∷ es) h = absurd (ground (arith, last-none (f ∷ es) h))

last-some : (es : List AuditEvent) (l : AuditEvent) → last es ≡ some l → 0 < length es
last-some [] l h = cc
last-some (e ∷ es) l h = omega arith

module _ (chain_hash : ℕ → HashInput → ℕ) (session k : ℕ) (s : AuditStore) where
  -- The answer is `valid` exactly for an intact chain, and then says that every event was checked.
  abbrev pub Verified : List AuditEvent → ℕ → ℕ → ℕ → Result VerifyFault AuditVerification → Type 0
  Verified rest checked n previous (err f) = ⊥
  Verified rest checked n previous (ok v) =
      ((v.valid ≡ true) ↔ IsChain chain_hash n previous rest)
      × ((v.valid ≡ true) ↔ (v ≡ valid_after chain_hash (checked + length rest)))

  split-IsChain :
      (rest : List AuditEvent) (n previous : ℕ)
      → IsChain chain_hash n previous (take (suc k) rest ++ drop (suc k) rest)
        ↔ IsChain chain_hash n previous rest
  split-IsChain rest n previous = rw (take-append-drop (suc k) rest) (λ h. h, λ h. h)

  short_page :
      (rest : List AuditEvent)
      → ltb (length (take (suc k) rest)) (suc k) ≡ true
      → (drop (suc k) rest ≡ []) × (length (take (suc k) rest) ≡ length rest)
  short_page rest h = (
    ground (arith, length-take (suc k) rest, length-drop (suc k) rest),
    ground (arith, length-take (suc k) rest, length-drop (suc k) rest),
  )

  -- The answer for what a full page leaves is the answer for the whole.
  join :
      (rest : List AuditEvent) (checked n previous c m p : ℕ)
      (answer : Result VerifyFault AuditVerification)
      → c ≡ checked + length (take (suc k) rest)
      → IsChain chain_hash n previous (take (suc k) rest ++ drop (suc k) rest)
        ↔ IsChain chain_hash m p (drop (suc k) rest)
      → Verified (drop (suc k) rest) c m p answer
      → Verified rest checked n previous answer
  join rest checked n previous c m p (err f) q iff v = v
  join rest checked n previous c m p (ok v) q iff ((there, back), (full, only)) =
      let count : c + length (drop (suc k) rest) ≡ checked + length rest =
        omega (arith, q, length-take (suc k) rest, length-drop (suc k) rest) in
      (
        (
          λ t. (split-IsChain rest n previous).0 (iff.1 (there t)),
          λ chain. back (iff.0 ((split-IsChain rest n previous).1 chain)),
        ),
        (λ t. full t ∙ ap (valid_after chain_hash) count, λ e. ap (λ x. x.valid) e),
      )

  -- What follows a page: the answer, or the next page.
  after_page :
      (fuel : ℕ) (rest : List AuditEvent) (checked n previous : ℕ) (r : PageResult)
      → Walked chain_hash (take (suc k) rest) checked n previous r
      → ((l : AuditEvent) (c m p : ℕ)
          → last (take (suc k) rest) ≡ some l
          → Verified
              (drop (suc k) rest)
              c
              m
              p
              (verify_from chain_hash session (suc k) s fuel (some l.hashed.sequence) c m p))
      → Verified rest checked n previous (elim r [
        | broken v ↦ ok v
        | intact c m p ↦
            if ltb (length (take (suc k) rest)) (suc k)
            then ok (valid_after chain_hash c)
            else elim (last (take (suc k) rest)) [
              | none ↦ err index_error
              | some l ↦
                  verify_from chain_hash session (suc k) s fuel (some l.hashed.sequence) c m p
            ]
      ])
  after_page fuel rest checked n previous (broken v) (f, never) again = (
    (
      λ t. cc,
      λ chain. absurd (never (drop (suc k) rest) ((split-IsChain rest n previous).1 chain)),
    ),
    (λ t. cc, λ e. ap (λ x. x.valid) e),
  )
  after_page fuel rest checked n previous (intact c m p) (q, iff) again =
      elim (Bool-cases (ltb (length (take (suc k) rest)) (suc k))) [
        | inl short ↦
            let (none_left, whole) = short_page rest short in
            let intact_end : IsChain chain_hash m p (drop (suc k) rest) = rw none_left tt in
            rw (short, Verified)
              (
                (
                  λ t. (split-IsChain rest n previous).0 ((iff (drop (suc k) rest)).1 intact_end),
                  λ chain. refl,
                ),
                (λ t. ap (valid_after chain_hash) (omega (arith, q, whole)), λ e. refl),
              )
        | inr full ↦ elim (Option-cases (last (take (suc k) rest))) [
          | inl nothing ↦ absurd (ground (arith, last-none (take (suc k) rest) nothing))
          | inr (l, some_l) ↦
              rw (full, some_l)
                (join rest checked n previous c m p _ q (iff (drop (suc k) rest))
                  (again l c m p some_l))
        ]
      ]

  next_page :
      (after : Option ℕ) (rest : List AuditEvent) (l : AuditEvent)
      → above after (chain_of session s.audit) ≡ rest
      → get_or after 0 ≤ l.hashed.sequence
      → above (some l.hashed.sequence) rest ≡ drop (suc k) rest
      → above (some l.hashed.sequence) (chain_of session s.audit) ≡ drop (suc k) rest
  next_page after rest l e low left =
      sym (above-above after l.hashed.sequence (chain_of session s.audit) low)
      ∙ ap (above (some l.hashed.sequence)) e
      ∙ left

  shorter :
      (fuel : ℕ) (rest : List AuditEvent) (l : AuditEvent)
      → last (take (suc k) rest) ≡ some l
      → length rest < suc fuel
      → length (drop (suc k) rest) < fuel
  shorter fuel rest l h enough = omega (
    arith,
    enough,
    length-drop (suc k) rest,
    last-some (take (suc k) rest) l h,
    length-take (suc k) rest,
  )

  verify_from-Verified :
      (fuel : ℕ) (after : Option ℕ) (checked n previous : ℕ)
      → Ascends (get_or after 0) (above after (chain_of session s.audit))
      → length (above after (chain_of session s.audit)) < fuel
      → Verified
          (above after (chain_of session s.audit))
          checked
          n
          previous
          (verify_from chain_hash session (suc k) s fuel after checked n previous)
  unfolding verify_from list_audit_events
  verify_from-Verified zero after checked n previous a enough = absurd (omega arith)
  verify_from-Verified (suc fuel) after checked n previous a enough =
      after_page fuel rest checked n previous _
        (check_page-Walked chain_hash (take (suc k) rest) checked n previous)
        (λ l c m p h.
          let (left, above_low, rising) = above-drop k (get_or after 0) rest l a h in
          let e : above (some l.hashed.sequence) (chain_of session s.audit) ≡ drop (suc k) rest =
            next_page after rest l refl (omega (arith, above_low)) left in
          subst
            (λ x.
              Verified x c m p
                (verify_from chain_hash session (suc k) s fuel (some l.hashed.sequence) c m p))
            e
            (verify_from-Verified fuel (some l.hashed.sequence) c m p (rw e rising)
              (rw e (shorter fuel rest l h enough))))
    where
      rest : List AuditEvent
      rest = above after (chain_of session s.audit)

  -- `verify`, with pages of any positive size and one more round than there are events, returns on
  -- every chain whose sequences rise (from 1 on). It answers `valid` exactly for an intact
  -- chain: consecutive sequences from 1, each event linked to the one before from the genesis hash,
  -- and each hash the one recomputed. It is then the answer that every event was checked.
  pub verify-IsChain :
      (fuel : ℕ)
      → Ascends 0 (chain_of session s.audit)
      → length (chain_of session s.audit) < fuel
      → Verified
          (chain_of session s.audit)
          0
          1
          genesis_hash
          (verify chain_hash session (suc k) s fuel)
  unfolding verify
  verify-IsChain fuel a enough = verify_from-Verified fuel none 0 1 genesis_hash a enough
