-- ===== src/FrameList/Seg.antt =====
-- Chains of links, and the nodes that they go through.
use bk_solution_doorbell.Base.{
  ℕ, ◌≡◌, ◌≢◌, refl, sym, Option, none, some, List, [], ◌∷◌, ◌++◌, arith, ◌==◌, if◌then◌else◌, All,
}

-- The first node of `xs`, or what comes after.
abbrev pub first : List ℕ → Option ℕ → Option ℕ
first [] after = after
first (x ∷ xs) after = some x

-- The last node of `xs`, or what came before.
abbrev pub last : Option ℕ → List ℕ → Option ℕ
last before [] = before
last before (x ∷ xs) = last (some x) xs

-- From `before` to `after` the links of `xs` go forth and back.
abbrev pub Seg : (next prev : ℕ → Option ℕ) → Option ℕ → List ℕ → Option ℕ → Type 0
Seg next prev before [] after = Unit {0}
Seg next prev before (x ∷ xs) after =
    (prev x ≡ before) × (next x ≡ first xs after) × Seg next prev (some x) xs after

-- No two places of the list are one node, and `a` is none of them.
abbrev pub Avoids : ℕ → List ℕ → Type 0
Avoids a xs = All (λ x. a ≢ x) xs

abbrev pub IsDistinct : List ℕ → Type 0
IsDistinct [] = Unit {0}
IsDistinct (x ∷ xs) = Avoids x xs × IsDistinct xs

pub Avoids-append : (a : ℕ) (xs ys : List ℕ) → Avoids a (xs ++ ys) → Avoids a xs × Avoids a ys
Avoids-append a [] ys h = (tt, h)
Avoids-append a (x ∷ xs) ys h = let r = Avoids-append a xs ys h.1 in ((h.0, r.0), r.1)

pub Avoids-join : (a : ℕ) (xs ys : List ℕ) → Avoids a xs → Avoids a ys → Avoids a (xs ++ ys)
Avoids-join a [] ys h k = k
Avoids-join a (x ∷ xs) ys h k = (h.0, Avoids-join a xs ys h.1 k)

-- A list that is distinct around a node.
pub IsDistinct-around :
    (xs ys : List ℕ) (n : ℕ)
    → IsDistinct (xs ++ (n ∷ ys))
    → IsDistinct (xs ++ ys) × Avoids n (xs ++ ys)
IsDistinct-around [] ys n h = (h.1, h.0)
IsDistinct-around (x ∷ xs) ys n h =
    let r = IsDistinct-around xs ys n h.1 in
    let a = Avoids-append x xs (n ∷ ys) h.0 in
    ((Avoids-join x xs ys a.0 a.1.1, r.0), ((λ e. a.1.0 (sym e)), r.1))

pub IsDistinct-snoc :
    (xs : List ℕ) (n : ℕ) → IsDistinct xs → Avoids n xs → IsDistinct (xs ++ (n ∷ []))
IsDistinct-snoc [] n h a = (tt, tt)
IsDistinct-snoc (x ∷ xs) n h a =
    (Avoids-join x xs (n ∷ []) h.0 ((λ e. a.0 (sym e)), tt), IsDistinct-snoc xs n h.1 a.1)

-- The last node is one of the list.
pub last-ne : (a x t : ℕ) (xs : List ℕ) → Avoids a (x ∷ xs) → last (some x) xs ≡ some t → a ≢ t
last-ne a x t [] h e = λ z. h.0 (ground arith)
last-ne a x t (y ∷ ys) h e = last-ne a y t ys h.1 e

pub last-snoc : (before : Option ℕ) (xs : List ℕ) (n : ℕ) → last before (xs ++ (n ∷ [])) ≡ some n
last-snoc before [] n = refl
last-snoc before (x ∷ xs) n = last-snoc (some x) xs n

pub last-some : (x : ℕ) (xs : List ℕ) → (t : ℕ) × (last (some x) xs ≡ some t)
last-some x [] = (x, refl)
last-some x (y ∷ ys) = last-some y ys

abbrev pub AvoidsEnd : Option ℕ → List ℕ → Type 0
AvoidsEnd none xs = Unit {0}
AvoidsEnd (some p) xs = Avoids p xs

-- Writes outside a segment leave it a segment.
pub Seg-write_next :
    (next prev : ℕ → Option ℕ) (before after v : Option ℕ) (a : ℕ) (xs : List ℕ)
    → Avoids a xs
    → Seg next prev before xs after
    → Seg (λ x. if a == x then v else next x) prev before xs after
Seg-write_next next prev before after v a [] h s = tt
Seg-write_next next prev before after v a (x ∷ xs) h s =
    (s.0, ground (arith, h.0, s.1), Seg-write_next next prev (some x) after v a xs h.1 s.2)

pub Seg-write_prev :
    (next prev : ℕ → Option ℕ) (before after v : Option ℕ) (a : ℕ) (xs : List ℕ)
    → Avoids a xs
    → Seg next prev before xs after
    → Seg next (λ x. if a == x then v else prev x) before xs after
Seg-write_prev next prev before after v a [] h s = tt
Seg-write_prev next prev before after v a (x ∷ xs) h s =
    (ground (arith, h.0, s.0), s.1, Seg-write_prev next prev (some x) after v a xs h.1 s.2)
