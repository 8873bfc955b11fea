-- ===== src/Protocol/Cycles/Ends.antt =====
-- src/agentic_local_app/protocol/adapter.py: the loop of `_find_cycle` ends.
use agentic_local_app.Base.{
  ℕ, zero, suc, ◌+◌, ◌≤◌, ◌<◌, ◌≡◌, refl, true, false, List, [], ◌∷◌, ◌==◌, if◌then◌else◌, has,
  length, drop, arith, ==_iff, ==_refl, Bool-cases, inl, inr,
}
use agentic_local_app.Protocol.Cycles.{
  Color, Deps, paint, Walked, found, finished, exhausted, closed_path, walk, walk_all, effort,
}
use agentic_local_app.Protocol.Cycles.Sound.{is_white}

abbrev pub Ends : Walked → Type 0
Ends (found cycle) = Unit
Ends (finished c) = Unit
Ends exhausted = ⊥

-- What is left to do: the tasks that are not entered yet, and the frames.
abbrev whites : Deps → (ℕ → Color) → List ℕ → ℕ
whites deps color [] = 0
whites deps color (x ∷ order) =
    (if is_white (color x) then suc (length (deps x)) else 0) + whites deps color order

abbrev frames_left : List (ℕ × List ℕ) → ℕ
frames_left [] = 0
frames_left ((node, pending) ∷ stack) = suc (length pending) + frames_left stack

-- Every dependency is a task of the plan.
abbrev pub IsClosed : Deps → List ℕ → Type 0
IsClosed deps order = (x y : ℕ) → has x order ≡ true → has y (deps x) ≡ true → has y order ≡ true

abbrev FramesIn : List ℕ → List (ℕ × List ℕ) → Type 0
FramesIn order [] = Unit
FramesIn order ((node, pending) ∷ stack) =
    ((y : ℕ) → has y pending ≡ true → has y order ≡ true) × FramesIn order stack

whites-paint :
    (deps : Deps) (color : ℕ → Color) (k : ℕ) (c : Color) (order : List ℕ)
    → is_white c ≡ false
    → whites deps (paint color k c) order ≤ whites deps color order
whites-paint deps color k c [] h = ground arith
whites-paint deps color k c (x ∷ order) h = ground (arith, whites-paint deps color k c order h)

whites_enter :
    (deps : Deps) (color : ℕ → Color) (k : ℕ) (order : List ℕ)
    → is_white (color k) ≡ true
    → has k order ≡ true
    → whites deps (paint color k Color.grey) order + suc (length (deps k)) ≤ whites deps color order
whites_enter deps color k [] w h = ground arith
whites_enter deps color k (x ∷ order) w h = elim (Bool-cases (x == k)) [
  | inl e ↦
      rw (e, (==_iff x k).0 e, w) (ground (arith, whites-paint deps color k Color.grey order refl))
  | inr e ↦ ground (arith, e, whites_enter deps color k order w)
]

pub walk-Ends :
    (n : ℕ) (deps : Deps) (order : List ℕ) (color : ℕ → Color) (path : List ℕ)
    (stack : List (ℕ × List ℕ))
    → IsClosed deps order
    → FramesIn order stack
    → whites deps color order + frames_left stack < n
    → Ends (walk n deps color path stack)
unfolding walk
walk-Ends zero deps order color path stack closed ins lt = omega arith
walk-Ends (suc n) deps order color path [] closed ins lt = tt
walk-Ends (suc n) deps order color path ((node, []) ∷ stack) closed (sub, ins) lt =
    let le = whites-paint deps color node Color.black order refl in
    walk-Ends n deps order (paint color node Color.black) (drop 1 path) stack closed ins
      (omega arith)
walk-Ends (suc n) deps order color path ((node, nxt ∷ pending) ∷ stack) closed (sub, ins) lt =
    go (walk-Ends n deps order) (color nxt) refl
  where
    in_order : has nxt order ≡ true
    in_order = sub nxt (ground (arith, ==_refl nxt))

    sub' : (y : ℕ) → has y pending ≡ true → has y order ≡ true
    sub' y h = sub y (ground (arith, h))

    go :
        ((color' : ℕ → Color) (path' : List ℕ) (stack' : List (ℕ × List ℕ))
          → IsClosed deps order
          → FramesIn order stack'
          → whites deps color' order + frames_left stack' < n
          → Ends (walk n deps color' path' stack'))
        → (c : Color) → color nxt ≡ c
        → Ends (elim c [
          | Color.grey ↦ found (closed_path nxt path (nxt ∷ []))
          | Color.white ↦
              walk n deps
                (paint color nxt Color.grey)
                (nxt ∷ path)
                ((nxt, deps nxt) ∷ (node, pending) ∷ stack)
          | Color.black ↦ walk n deps color path ((node, pending) ∷ stack)
        ])
    go again Color.grey e = tt
    go again Color.white e =
        let le = whites_enter deps color nxt order (rw e refl) in_order in
        again (paint color nxt Color.grey) (nxt ∷ path) ((nxt, deps nxt) ∷ (node, pending) ∷ stack)
          closed (λ y d. closed nxt y in_order d, (sub', ins)) (omega arith)
    go again Color.black e =
        again color path ((node, pending) ∷ stack) closed (sub', ins) (omega arith)

whites-le :
    (deps : Deps) (color : ℕ → Color) (order : List ℕ) → whites deps color order < effort deps order
whites-le deps color [] = ground arith
whites-le deps color (x ∷ order) = ground (arith, whites-le deps color order)

pub walk_all-Ends :
    (n : ℕ) (deps : Deps) (order rest : List ℕ) (color : ℕ → Color)
    → IsClosed deps order
    → ((x : ℕ) → has x rest ≡ true → has x order ≡ true)
    → effort deps order ≤ n
    → Ends (walk_all n deps rest color)
unfolding walk_all
walk_all-Ends n deps order [] color closed sub le = tt
walk_all-Ends n deps order (start ∷ rest) color closed sub le =
    go (λ color'. walk_all-Ends n deps order rest color' closed sub' le) (color start) refl
  where
    in_order : has start order ≡ true
    in_order = sub start (ground (arith, ==_refl start))

    sub' : (x : ℕ) → has x rest ≡ true → has x order ≡ true
    sub' x h = sub x (ground (arith, h))

    walked :
        color start ≡ Color.white
        → Ends (walk n deps (paint color start Color.grey) (start ∷ []) ((start, deps start) ∷ []))
    walked e =
        let enter = whites_enter deps color start order (rw e refl) in_order in
        let bound = whites-le deps color order in
        walk-Ends n deps order (paint color start Color.grey) (start ∷ [])
          ((start, deps start) ∷ []) closed (λ y d. closed start y in_order d, tt) (omega arith)

    after :
        ((color' : ℕ → Color) → Ends (walk_all n deps rest color'))
        → (w : Walked) → Ends w
        → Ends (elim w [
          | found cycle ↦ found cycle
          | finished color' ↦ walk_all n deps rest color'
          | exhausted ↦ exhausted
        ])
    after again (found cycle) h = tt
    after again (finished c) h = again c
    after again exhausted h = h

    go :
        ((color' : ℕ → Color) → Ends (walk_all n deps rest color'))
        → (c : Color) → color start ≡ c
        → Ends (elim c [
          | Color.white ↦
              elim (walk n deps
                (paint color start Color.grey)
                (start ∷ [])
                ((start, deps start) ∷ [])) [
                  | found cycle ↦ found cycle
                  | finished color' ↦ walk_all n deps rest color'
                  | exhausted ↦ exhausted
                ]
          | Color.grey ↦ walk_all n deps rest color
          | Color.black ↦ walk_all n deps rest color
        ])
    go again Color.white e =
        after again
          (walk n deps (paint color start Color.grey) (start ∷ []) ((start, deps start) ∷ []))
          (walked e)
    go again Color.grey e = again color
    go again Color.black e = again color
