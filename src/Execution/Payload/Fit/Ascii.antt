-- ===== src/Execution/Payload/Fit/Ascii.antt =====
-- The loop of `fit_message` on outputs that are ASCII.
use agentic_local_app.Base.{
  ℕ, zero, suc, ◌+◌, ◌-◌, ◌/◌, ◌≤◌, ◌<◌, ◌≡◌, ◌⊎◌, inl, inr, refl, ◌∙◌, ap, Option, none, some,
  List, [], ◌∷◌, ◌++◌, arith, ltb, length, take, drop, All, Bool-cases, Option-cases,
}
use mathlib.Core.List.{append_assoc}
use agentic_local_app.Domain.States.{OutputStream}
use agentic_local_app.Persistence.Blobs.{Bytes}
use agentic_local_app.Execution.Payload.{keep_end}
use agentic_local_app.Execution.Payload.Truncation.{length-keep_end, keep_end-suffix}
use agentic_local_app.Execution.Payload.Fit.Longest.{Positive, longest-Positive, longest_from-none}
use agentic_local_app.Execution.Payload.Fit.{TaskResult, modify, text_size, longest, halve, fit}

abbrev pub IsAscii : Bytes → Type 0
IsAscii bs = All (λ b. b < 128) bs

drop-IsAscii : (n : ℕ) (bs : Bytes) → IsAscii bs → IsAscii (drop n bs)
drop-IsAscii zero bs h = h
drop-IsAscii (suc n) [] h = tt
drop-IsAscii (suc n) (b ∷ bs) h = drop-IsAscii n bs h.1

keep_end-IsAscii : (n : ℕ) (bs : Bytes) → IsAscii bs → IsAscii (keep_end n bs)
keep_end-IsAscii n bs h = ground (arith, drop-IsAscii (length bs - n) bs h)

-- One is what is left of the other after bytes were cut from its front.
abbrev pub IsSuffix : Bytes → Bytes → Type 0
IsSuffix kept whole = (front : Bytes) × (front ++ kept ≡ whole)

IsSuffix-trans : (a b c : Bytes) → IsSuffix a b → IsSuffix b c → IsSuffix a c
IsSuffix-trans a b c (f, p) (g, q) = (g ++ f, append_assoc g f a ∙ ap (λ r. g ++ r) p ∙ q)

module _ {Text : Type 0} (encode : Text → Bytes) (decode : Bytes → Text) where
  abbrev pub AsciiResult : TaskResult Text → Type 0
  AsciiResult r = IsAscii (encode r.stdout) × IsAscii (encode r.stderr)

  abbrev pub total_size : List (TaskResult Text) → ℕ
  total_size [] = 0
  total_size (r ∷ rs) = length (encode r.stdout) + length (encode r.stderr) + total_size rs

  -- The same task, each text cut from the front.
  abbrev pub IsCut : TaskResult Text → TaskResult Text → Type 0
  IsCut r r' =
      (r'.task_id ≡ r.task_id)
      × IsSuffix (encode r'.stdout) (encode r.stdout)
      × IsSuffix (encode r'.stderr) (encode r.stderr)

  abbrev pub AreCut : List (TaskResult Text) → List (TaskResult Text) → Type 0
  AreCut [] [] = Unit
  AreCut (r ∷ rs) (r' ∷ rs') = IsCut r r' × AreCut rs rs'
  AreCut _ _ = ⊥

  AreCut-refl : (rs : List (TaskResult Text)) → AreCut rs rs
  AreCut-refl [] = tt
  AreCut-refl (r ∷ rs) = ((refl, ([], refl), ([], refl)), AreCut-refl rs)

  AreCut-trans : (rs ss ts : List (TaskResult Text)) → AreCut rs ss → AreCut ss ts → AreCut rs ts
  AreCut-trans [] [] ts p q = q
  AreCut-trans [] (s ∷ ss) ts p q = absurd p
  AreCut-trans (r ∷ rs) [] ts p q = absurd p
  AreCut-trans (r ∷ rs) (s ∷ ss) [] p q = absurd q
  AreCut-trans (r ∷ rs) (s ∷ ss) (t ∷ ts) ((a, b, c), p) ((a', b', c'), q) =
      ((a' ∙ a, IsSuffix-trans _ _ _ b' b, IsSuffix-trans _ _ _ c' c), AreCut-trans rs ss ts p q)

  module _ (ascii : (bs : Bytes) → IsAscii bs → encode (decode bs) ≡ bs) where
    half_lem :
        (bs : Bytes)
        → IsAscii bs
        → let left = encode (decode (keep_end (length bs / 2) bs)) in
          IsAscii left × IsSuffix left bs × (length left ≡ length bs / 2)
    half_lem bs h =
        rw (ascii (keep_end (length bs / 2) bs) (keep_end-IsAscii (length bs / 2) bs h)) (
          keep_end-IsAscii (length bs / 2) bs h,
          (take (length bs - length bs / 2) bs, keep_end-suffix (length bs / 2) bs (omega arith)),
          length-keep_end (length bs / 2) bs (omega arith),
        )

    -- What halving one result does: it cuts a text and shortens the two, if that text is not empty.
    abbrev Halves : OutputStream → TaskResult Text → TaskResult Text → Type 0
    Halves stream r r' =
        AsciiResult r'
        × IsCut r r'
        × (0 < text_size encode decode stream r
            → length (encode r'.stdout) + length (encode r'.stderr)
              < length (encode r.stdout) + length (encode r.stderr))

    halve_lem :
        (stream : OutputStream) (r : TaskResult Text)
        → AsciiResult r
        → Halves stream r (halve encode decode stream r)
    unfolding halve
    halve_lem OutputStream.stdout r (o, e) =
        let (a, c, l) = half_lem (encode r.stdout) o in
        ((a, e), (refl, c, ([], refl)), λ p. omega (arith, l))
    halve_lem OutputStream.stderr r (o, e) =
        let (a, c, l) = half_lem (encode r.stderr) e in
        ((o, a), (refl, ([], refl), c), λ p. omega (arith, l))

    modify_lem :
        (stream : OutputStream) (index : ℕ) (rs : List (TaskResult Text))
        → All AsciiResult rs
        → Positive encode decode stream index rs
        → All AsciiResult (modify index (halve encode decode stream) rs)
          × AreCut rs (modify index (halve encode decode stream) rs)
          × (total_size (modify index (halve encode decode stream) rs) < total_size rs)
    modify_lem stream index [] h p = absurd p
    modify_lem stream zero (r ∷ rs) (hr, h) p =
        let (a, c, l) = halve_lem stream r hr in ((a, h), (c, AreCut-refl rs), omega (arith, l p))
    modify_lem stream (suc index) (r ∷ rs) (hr, h) p =
        let (a, c, l) = modify_lem stream index rs h p in
        ((hr, a), ((refl, ([], refl), ([], refl)), c), omega (arith, l))

    module _ (message_size : List (TaskResult Text) → ℕ) (max_message_bytes : ℕ) where
      -- What the loop promises of the list that it returns.
      abbrev pub Fitted : List (TaskResult Text) → Option (List (TaskResult Text)) → Type 0
      Fitted rs none = ⊥
      Fitted rs (some rs') =
          AreCut rs rs' × ((message_size rs' ≤ max_message_bytes) ⊎ (total_size rs' ≡ 0))

      Fitted-after :
          (rs ss : List (TaskResult Text)) (o : Option (List (TaskResult Text)))
          → AreCut rs ss
          → Fitted ss o
          → Fitted rs o
      Fitted-after rs ss none c f = f
      Fitted-after rs ss (some ts) c (d, f) = (AreCut-trans rs ss ts c d, f)

      empty_total :
          (rs : List (TaskResult Text))
          → All (λ r. length (encode r.stdout) ≡ 0) rs
          → All (λ r. length (encode r.stderr) ≡ 0) rs
          → total_size rs ≡ 0
      empty_total [] a b = refl
      empty_total (r ∷ rs) (a, p) (b, q) = omega (arith, empty_total rs p q)

      -- Where every output is ASCII (on which UTF-8 decoding is undone by encoding), with more fuel
      -- than bytes the loop of `fit_message` ends; the message then fits, or every output is empty.
      -- The results are those given, in order, and each output is an end of the one given.
      pub fit-Fitted :
          (fuel : ℕ) (rs : List (TaskResult Text))
          → All AsciiResult rs
          → total_size rs < fuel
          → Fitted rs (fit encode decode message_size max_message_bytes fuel rs)
      unfolding fit longest
      fit-Fitted zero rs h enough = absurd (omega arith)
      fit-Fitted (suc fuel) rs h enough =
          elim (Bool-cases (ltb max_message_bytes (message_size rs))) [
            | inr fits ↦ rw (fits, fit) (AreCut-refl rs, inl (ground arith))
            | inl big ↦ elim (Option-cases (longest encode decode rs OutputStream.stdout)) [
              | inr (index, e) ↦
                  rw (big, e, fit) (cut OutputStream.stdout index (fit-Fitted fuel) e)
              | inl no_stdout ↦ elim (Option-cases (longest encode decode rs OutputStream.stderr)) [
                | inr (index, e) ↦
                    rw (big, no_stdout, fit)
                      (rw e (cut OutputStream.stderr index (fit-Fitted fuel) e))
                | inl no_stderr ↦
                    rw (big, no_stdout, fit)
                      (rw no_stderr (
                        AreCut-refl rs,
                        inr (
                            empty_total rs
                              (longest_from-none encode decode OutputStream.stdout 0 rs no_stdout)
                              (longest_from-none encode decode OutputStream.stderr 0 rs no_stderr)),
                      ))
              ]
            ]
          ]
        where
          cut :
              (stream : OutputStream) (index : ℕ)
              → ((ss : List (TaskResult Text))
                  → All AsciiResult ss
                  → total_size ss < fuel
                  → Fitted ss (fit encode decode message_size max_message_bytes fuel ss))
              → longest encode decode rs stream ≡ some index
              → Fitted rs (
                  fit encode decode message_size max_message_bytes fuel
                    (modify index (halve encode decode stream) rs))
          cut stream index again e =
              let next = modify index (halve encode decode stream) rs in
              let (a, c, l) =
                modify_lem stream index rs h (longest-Positive encode decode stream rs index e) in
              Fitted-after rs next (fit encode decode message_size max_message_bytes fuel next) c
                (again next a (omega arith))
