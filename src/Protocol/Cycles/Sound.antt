-- ===== src/Protocol/Cycles/Sound.antt =====
-- src/agentic_local_app/protocol/adapter.py: what the search of `_find_cycle` finds.
use mathlib.Core.Path.{subst, sym}
use agentic_local_app.Base.{
  ℕ, zero, suc, ◌≡◌, refl, Bool, true, false, ◌||◌, List, [], ◌∷◌, ◌==◌, has, drop, arith, ==_iff,
  ==_refl, Bool-cases, inl, inr, Option, none, some, ap, ◌∙◌,
}
use agentic_local_app.Protocol.Cycles.{
  Color, Deps, paint, Walked, found, finished, exhausted, closed_path, walk,
}
use agentic_local_app.Protocol.Cycles.Orders.{Ordered, Leads, IsCycle}

abbrev pub is_white : Color → Bool
is_white Color.white = true
is_white _ = false

abbrev pub is_grey : Color → Bool
is_grey Color.grey = true
is_grey _ = false

abbrev pub is_black : Color → Bool
is_black Color.black = true
is_black _ = false

abbrev pub nodes : List (ℕ × List ℕ) → List ℕ
nodes [] = []
nodes ((node, pending) ∷ stack) = node ∷ nodes stack

-- Each node is a dependency of the one that was entered before it.
abbrev BackLinks : Deps → List ℕ → Type 0
BackLinks deps [] = Unit
BackLinks deps (x ∷ []) = Unit
BackLinks deps (x ∷ y ∷ path) = (has x (deps y) ≡ true) × BackLinks deps (y ∷ path)

-- The dependencies that a frame is done with are finished, but for the one that is entered above it.
abbrev above_or : Option ℕ → ℕ → Bool
above_or none y = false
above_or (some x) y = x == y

abbrev FrameOk : Deps → List ℕ → Option ℕ → ℕ → List ℕ → Type 0
FrameOk deps done above node pending =
    ((y : ℕ)
      → has y (deps node) ≡ true
      → (has y pending || (has y done || above_or above y)) ≡ true)
    × ((y : ℕ) → has y pending ≡ true → has y (deps node) ≡ true)

abbrev FramesOk : Deps → List ℕ → Option ℕ → List (ℕ × List ℕ) → Type 0
FramesOk deps done above [] = Unit
FramesOk deps done above ((node, pending) ∷ stack) =
    FrameOk deps done above node pending × FramesOk deps done (some node) stack

-- The black nodes are `done`, and the grey ones are on the path.
abbrev pub ColorsOk : (ℕ → Color) → List ℕ → List ℕ → Type 0
ColorsOk color done path =
    ((x : ℕ) → is_black (color x) ≡ has x done)
    × ((x : ℕ) → is_grey (color x) ≡ true → has x path ≡ true)

-- A search that finds a path finds a cycle; one that finishes has an order of what it entered.
abbrev pub Sound : Deps → (ℕ → Color) → Walked → Type 0
Sound deps color (found cycle) = IsCycle deps cycle
Sound deps color (finished c) =
    (done : List ℕ) × ColorsOk c done []
    × Ordered deps done
    × ((x : ℕ) → is_white (color x) ≡ false → is_white (c x) ≡ false)
Sound deps color exhausted = Unit

Sound-later :
    (deps : Deps) (color color' : ℕ → Color) (w : Walked)
    → ((x : ℕ) → is_white (color x) ≡ false → is_white (color' x) ≡ false)
    → Sound deps color' w
    → Sound deps color w
Sound-later deps color color' (found cycle) f h = h
Sound-later deps color color' (finished c) f (done, ok, o, g) = (done, ok, o, λ x e. g x (f x e))
Sound-later deps color color' exhausted f h = h

pub paint_white :
    (color : ℕ → Color) (k : ℕ) (c : Color)
    → is_white c ≡ false
    → (x : ℕ) → is_white (color x) ≡ false
    → is_white (paint color k c x) ≡ false
paint_white color k c h x e = ground arith

closed_path-IsCycle :
    (deps : Deps) (nxt : ℕ) (x : ℕ) (path : List ℕ) (a : ℕ) (tail : List ℕ)
    → BackLinks deps (x ∷ path)
    → has a (deps x) ≡ true
    → Leads deps a tail nxt
    → has nxt (x ∷ path) ≡ true
    → IsCycle deps (closed_path nxt (x ∷ path) (a ∷ tail))
closed_path-IsCycle deps nxt x [] a tail links d rest h =
    let e : (x == nxt) ≡ true = ground (arith, h) in
    rw e (d, subst (λ k. Leads deps a tail k) (sym ((==_iff x nxt).0 e)) rest)
closed_path-IsCycle deps nxt x (y ∷ path) a tail (link, links) d rest h =
    elim (Bool-cases (x == nxt)) [
      | inl e ↦ rw e (d, subst (λ k. Leads deps a tail k) (sym ((==_iff x nxt).0 e)) rest)
      | inr e ↦
          let h' : has nxt (y ∷ path) ≡ true = ground (arith, h, e) in
          rw e (closed_path-IsCycle deps nxt y path x (a ∷ tail) links link (d, rest) h')
    ]

FramesOk-more :
    (deps : Deps) (done : List ℕ) (node : ℕ) (above : Option ℕ) (stack : List (ℕ × List ℕ))
    → FramesOk deps done above stack
    → FramesOk deps (node ∷ done) above stack
FramesOk-more deps done node above [] h = tt
FramesOk-more deps done node above ((n, pending) ∷ stack) ((ok, sub), h) =
    ((λ y d. ground (arith, ok y d), sub), FramesOk-more deps done node (some n) stack h)

-- The node above is finished.
FramesOk-done :
    (deps : Deps) (done : List ℕ) (node : ℕ) (stack : List (ℕ × List ℕ))
    → FramesOk deps done (some node) stack
    → FramesOk deps (node ∷ done) none stack
FramesOk-done deps done node [] h = tt
FramesOk-done deps done node ((n, pending) ∷ stack) ((ok, sub), h) =
    ((λ y d. ground (arith, ok y d), sub), FramesOk-more deps done node (some n) stack h)

not_black : (c : Color) → is_white c ≡ true → false ≡ is_black c
not_black c h = ground arith

pub ColorsOk-grey :
    (color : ℕ → Color) (done path : List ℕ) (k : ℕ)
    → is_white (color k) ≡ true
    → ColorsOk color done path
    → ColorsOk (paint color k Color.grey) done (k ∷ path)
ColorsOk-grey color done path k white (b, g) = (
  λ x. elim (Bool-cases (x == k)) [
    | inl e ↦ rw (e, (==_iff x k).0 e) (not_black (color k) white ∙ b k)
    | inr e ↦ rw e (b x)
  ],
  λ x e. ground (arith, g x, (==_iff x k).0, (==_iff k x).0, ==_refl k),
)

ColorsOk-black :
    (color : ℕ → Color) (done path : List ℕ) (k : ℕ)
    → ColorsOk color done (k ∷ path)
    → ColorsOk (paint color k Color.black) (k ∷ done) path
ColorsOk-black color done path k (b, g) = (
  λ x. ground (arith, b x, (==_iff x k).0, (==_iff k x).0, ==_refl k),
  λ x e. ground (arith, g x, (==_iff x k).0, (==_iff k x).0),
)

-- What holds while the search runs.
pub record Searching (deps : Deps) (color : ℕ → Color) (done path : List ℕ)
    (stack : List (ℕ × List ℕ)) : Type 0 where
  pub same : path ≡ nodes stack
  pub colors : ColorsOk color done (nodes stack)
  pub order : Ordered deps done
  pub links : BackLinks deps (nodes stack)
  pub frames : FramesOk deps done none stack

tail_links : (deps : Deps) (x : ℕ) (path : List ℕ) → BackLinks deps (x ∷ path) → BackLinks deps path
tail_links deps x [] h = tt
tail_links deps x (y ∷ path) h = h.1

pub walk-Sound :
    (n : ℕ) (deps : Deps) (color : ℕ → Color) (done path : List ℕ) (stack : List (ℕ × List ℕ))
    → Searching deps color done path stack
    → Sound deps color (walk n deps color path stack)
unfolding walk
walk-Sound zero deps color done path stack s = tt
walk-Sound (suc n) deps color done path [] s = (done, s.colors, s.order, λ x e. e)
walk-Sound (suc n) deps color done path ((node, []) ∷ stack) s =
    let ((ok, sub), frames) = s.frames in
    Sound-later deps color (paint color node Color.black) _
      (paint_white color node Color.black refl)
      (walk-Sound n deps (paint color node Color.black) (node ∷ done) (drop 1 path) stack (record {
        same = ap (drop 1) s.same;
        colors = ColorsOk-black color done (nodes stack) node s.colors;
        order = (λ y d. ground (arith, ok y d), s.order);
        links = tail_links deps node (nodes stack) s.links;
        frames = FramesOk-done deps done node stack frames;
      }))
walk-Sound (suc n) deps color done path ((node, nxt ∷ pending) ∷ stack) s =
    go (walk-Sound n deps) (color nxt) refl
  where
    entered : has nxt (deps node) ≡ true
    entered = s.frames.0.1 nxt (ground (arith, ==_refl nxt))

    finished_already : color nxt ≡ Color.black → (y : ℕ) → (nxt == y) ≡ true → has y done ≡ true
    finished_already e y h = rw⁻¹ ((==_iff nxt y).0 h) (sym (s.colors.0 nxt) ∙ ap is_black e)

    go :
        ((color' : ℕ → Color) (done' path' : List ℕ) (stack' : List (ℕ × List ℕ))
          → Searching deps color' done' path' stack'
          → Sound deps color' (walk n deps color' path' stack'))
        → (c : Color) → color nxt ≡ c
        → Sound deps color (elim c [
          | Color.grey ↦ found (closed_path nxt path (nxt ∷ []))
          | Color.white ↦
              walk n deps
                (paint color nxt Color.grey)
                (nxt ∷ path)
                ((nxt, deps nxt) ∷ (node, pending) ∷ stack)
          | Color.black ↦ walk n deps color path ((node, pending) ∷ stack)
        ])
    go again Color.grey e =
        subst (λ p. IsCycle deps (closed_path nxt p (nxt ∷ []))) (sym s.same)
          (closed_path-IsCycle deps nxt node (nodes stack) nxt [] s.links entered refl
            (s.colors.1 nxt (rw e refl)))
    go again Color.white e =
        Sound-later deps color (paint color nxt Color.grey) _
          (paint_white color nxt Color.grey refl)
          (again (paint color nxt Color.grey) done (nxt ∷ path)
            ((nxt, deps nxt) ∷ (node, pending) ∷ stack)
            (record {
              same = ap (λ p. nxt ∷ p) s.same;
              colors = ColorsOk-grey color done (node ∷ nodes stack) nxt (rw e refl) s.colors;
              order = s.order;
              links = (entered, s.links);
              frames = (
                (λ y d. ground (arith, d), λ y d. d),
                (
                  (
                    λ y d. ground (arith, s.frames.0.0 y d),
                    λ y d. s.frames.0.1 y (ground (arith, d)),
                  ),
                  s.frames.1,
                ),
              );
            }))
    go again Color.black e = again color done path ((node, pending) ∷ stack) (record {
      same = s.same;
      colors = s.colors;
      order = s.order;
      links = s.links;
      frames = (
        (
          λ y d. ground (arith, s.frames.0.0 y d, finished_already e y),
          λ y d. s.frames.0.1 y (ground (arith, d)),
        ),
        s.frames.1,
      );
    })
