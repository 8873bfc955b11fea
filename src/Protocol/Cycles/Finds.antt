-- ===== src/Protocol/Cycles/Finds.antt =====
-- src/agentic_local_app/protocol/adapter.py: what `_find_cycle` answers.
use mathlib.Core.Path.{subst, sym}
use agentic_local_app.Protocol.Cycles.Ends.{Ends, IsClosed, walk_all-Ends}
use agentic_local_app.Base.{
  ℕ, suc, ◌≡◌, refl, true, false, ◌||◌, List, [], ◌∷◌, ◌==◌, has, arith, ==_iff, ==_refl,
  Bool-cases, inl, inr, ◌∙◌, ◌⊎◌,
}
use agentic_local_app.Protocol.Cycles.{
  Color, Deps, paint, Walked, found, finished, exhausted, walk, walk_all, find_cycle, effort,
}
use agentic_local_app.Protocol.Cycles.Orders.{Ordered, IsCycle, no_cycle}
use agentic_local_app.Protocol.Cycles.Sound.{
  is_white, is_grey, is_black, Sound, Searching, walk-Sound, ColorsOk, ColorsOk-grey, paint_white,
}

-- Everything in `order` is entered.
abbrev SoundAll : Deps → List ℕ → (ℕ → Color) → Walked → Type 0
SoundAll deps order color (found cycle) = IsCycle deps cycle
SoundAll deps order color (finished c) =
    Sound deps color (finished c) × ((x : ℕ) → has x order ≡ true → is_white (c x) ≡ false)
SoundAll deps order color exhausted = Unit

start_entered :
    (deps : Deps) (start : ℕ) (order : List ℕ) (color color' : ℕ → Color) (w : Walked)
    → ((x : ℕ) → is_white (color x) ≡ false → is_white (color' x) ≡ false)
    → is_white (color' start) ≡ false
    → SoundAll deps order color' w
    → SoundAll deps (start ∷ order) color w
start_entered deps start order color color' (found cycle) f e h = h
start_entered deps start order color color' exhausted f e h = h
start_entered deps start order color color' (finished c) f e ((done, ok, o, g), all) =
    ((done, ok, o, λ x p. g x (f x p)), λ x h. entered x h (Bool-cases (start == x)))
  where
    entered :
        (x : ℕ)
        → (start == x || has x order) ≡ true
        → ((start == x) ≡ true) ⊎ ((start == x) ≡ false)
        → is_white (c x) ≡ false
    entered x h (inl p) = subst (λ k. is_white (c k) ≡ false) ((==_iff start x).0 p) (g start e)
    entered x h (inr p) = all x (ground (arith, h, p))

-- Between two starts nothing is grey.
walk_all-SoundAll :
    (n : ℕ) (deps : Deps) (order : List ℕ) (color : ℕ → Color) (done : List ℕ)
    → ColorsOk color done []
    → Ordered deps done
    → SoundAll deps order color (walk_all n deps order color)
unfolding walk_all
walk_all-SoundAll n deps [] color done ok o = ((done, ok, o, λ x e. e), λ x e. ground (arith, e))
walk_all-SoundAll n deps (start ∷ order) color done ok o =
    go (walk_all-SoundAll n deps order) (color start) refl
  where
    painted : ℕ → Color
    painted = paint color start Color.grey

    painted_start : is_white (painted start) ≡ false
    painted_start = ground (arith, ==_refl start)

    before :
        color start ≡ Color.white
        → Searching deps painted done (start ∷ []) ((start, deps start) ∷ [])
    before e = record {
      same = refl;
      colors = ColorsOk-grey color done [] start (rw e refl) ok;
      order = o;
      links = tt;
      frames = ((λ y d. ground (arith, d), λ y d. d), tt);
    }

    after :
        ((color' : ℕ → Color) (done' : List ℕ)
          → ColorsOk color' done' []
          → Ordered deps done'
          → SoundAll deps order color' (walk_all n deps order color'))
        → (w : Walked) → Sound deps painted w
        → SoundAll deps (start ∷ order) color (elim w [
          | found cycle ↦ found cycle
          | finished color' ↦ walk_all n deps order color'
          | exhausted ↦ exhausted
        ])
    after again (found cycle) h = h
    after again exhausted h = tt
    after again (finished c) (done', ok', o', g) =
        start_entered deps start order color c (walk_all n deps order c)
          (λ x e. g x (paint_white color start Color.grey refl x e)) (g start painted_start)
          (again c done' ok' o')

    go :
        ((color' : ℕ → Color) (done' : List ℕ)
          → ColorsOk color' done' []
          → Ordered deps done'
          → SoundAll deps order color' (walk_all n deps order color'))
        → (c : Color) → color start ≡ c
        → SoundAll deps (start ∷ order) color (elim c [
          | Color.white ↦
              elim (walk n deps
                (paint color start Color.grey)
                (start ∷ [])
                ((start, deps start) ∷ [])) [
                  | found cycle ↦ found cycle
                  | finished color' ↦ walk_all n deps order color'
                  | exhausted ↦ exhausted
                ]
          | Color.grey ↦ walk_all n deps order color
          | Color.black ↦ walk_all n deps order color
        ])
    go again Color.white e =
        after again (walk n deps painted (start ∷ []) ((start, deps start) ∷ []))
          (walk-Sound n deps painted done (start ∷ []) ((start, deps start) ∷ []) (before e))
    go again Color.grey e =
        start_entered deps start order color color (walk_all n deps order color) (λ x p. p)
          (rw e refl) (again color done ok o)
    go again Color.black e =
        start_entered deps start order color color (walk_all n deps order color) (λ x p. p)
          (rw e refl) (again color done ok o)

-- The verdict on the tasks `order` with the dependencies `deps`.
abbrev pub Decides : List ℕ → Deps → Walked → Type 0
Decides order deps (found cycle) = IsCycle deps cycle
Decides order deps (finished c) =
    ((done : List ℕ) × Ordered deps done × ((x : ℕ) → has x order ≡ true → has x done ≡ true))
    × ((x : ℕ) (path : List ℕ) → has x order ≡ true → IsCycle deps (x ∷ path) → ⊥)
Decides order deps exhausted = ⊥

decided :
    (order : List ℕ) (deps : Deps) (w : Walked)
    → SoundAll deps order (λ x. Color.white) w
    → Ends w
    → Decides order deps w
decided order deps (found cycle) h e = h
decided order deps (finished c) ((done, ok, o, g), all) e =
    ((done, o, inside), λ x path i cycle. no_cycle deps done x path o (inside x i) cycle)
  where
    neither : (k : Color) → is_white k ≡ false → is_grey k ≡ false → is_black k ≡ true
    neither k p q = ground arith

    not_grey : (x : ℕ) → is_grey (c x) ≡ false
    not_grey x = elim (Bool-cases (is_grey (c x))) [ inl p ↦ cc (ok.1 x p) | inr p ↦ p ]

    inside : (x : ℕ) → has x order ≡ true → has x done ≡ true
    inside x h = sym (ok.0 x) ∙ neither (c x) (all x h) (not_grey x)
decided order deps exhausted h e = elim e [ ]

-- Where every dependency is one of the tasks, the search for a cycle ends. It answers with a cycle along the
-- dependencies, or else there is none through the tasks, and they can be listed with each one before the tasks
-- that it depends on.
pub find_cycle-Decides :
    (order : List ℕ) (deps : Deps)
    → IsClosed deps order
    → Decides order deps (find_cycle order deps)
unfolding find_cycle
find_cycle-Decides order deps closed =
    decided order deps (find_cycle order deps)
      (walk_all-SoundAll (suc (effort deps order)) deps order (λ x. Color.white) [] nothing tt)
      (walk_all-Ends (suc (effort deps order)) deps order order (λ x. Color.white) closed (λ x h. h)
        (omega arith))
  where
    nothing : ColorsOk (λ x. Color.white) [] []
    nothing = (λ x. refl, λ x h. ground (arith, h))
