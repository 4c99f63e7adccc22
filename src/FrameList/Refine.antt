-- ===== src/FrameList/Refine.antt =====
-- The pointer operations refine operations on lists of node addresses.
use bk_solution_doorbell.Base.{
  ℕ, ◌<◌, ◌≡◌, ◌≢◌, refl, sym, ◌∙◌, Option, none, some, List, [], ◌∷◌, ◌++◌, arith, length,
  length-append,
}
use bk_solution_doorbell.FrameList.Seg.{
  first, last, Seg, Avoids, AvoidsEnd, IsDistinct, Avoids-append, IsDistinct-around,
  IsDistinct-snoc, last-ne, last-some, last-snoc, Seg-write_next, Seg-write_prev,
}
use bk_solution_doorbell.FrameList.{
  Links, FrameList, write, set_next_of, set_prev_of, end_of, init, add_tail, add_head, remove,
  pop_head,
}

-- `l` is the list of the nodes `xs` over the links `h`.
pub record IsList (h : Links) (l : FrameList) (xs : List ℕ) : Type 0 where
  pub chain : Seg h.next h.prev none xs none
  pub head : l.head ≡ first xs none
  pub tail : l.tail ≡ last none xs
  pub distinct : IsDistinct xs
  pub count : l.count ≡ length xs

pub init-IsList : (h : Links) → IsList h init []
unfolding init
init-IsList h = record { chain = tt; head = refl; tail = refl; distinct = tt; count = refl }

Seg-snoc :
    (next prev : ℕ → Option ℕ) (node t x : ℕ) (xs : List ℕ) (before : Option ℕ)
    → last (some x) xs ≡ some t
    → IsDistinct (x ∷ xs)
    → Avoids node (x ∷ xs)
    → Seg next prev before (x ∷ xs) none
    → Seg
        (write (write next node none) t (some node))
        (write prev node (some t))
        before
        ((x ∷ xs) ++ (node ∷ []))
        none
Seg-snoc next prev node t x [] before e d a s = ground (arith, s, a, e)
Seg-snoc next prev node t x (y ∷ ys) before e d a s =
    let ne = last-ne x y t ys d.0 e in
    (
      ground (arith, a.0, s.0),
      ground (arith, a.0, s.1, ne),
      Seg-snoc next prev node t y ys (some x) e d.1 a.1 s.2,
    )

-- `frame_list_add_tail_nolock` appends a node that is not in the list.
pub add_tail-IsList :
    (node : ℕ) (l : FrameList) (h : Links) (xs : List ℕ)
    → length xs < 4294967295
    → Avoids node xs
    → IsList h l xs
    → let (l', h') = add_tail node l h in IsList h' l' (xs ++ (node ∷ []))
unfolding add_tail
add_tail-IsList node l h [] n a v =
    rw (v.tail, v.head)
      (record {
        chain = ground arith;
        head = refl;
        tail = refl;
        distinct = (tt, tt);
        count = omega (arith, v.count);
      })
add_tail-IsList node l h (x ∷ xs) n a v =
    let (t, e) = last-some x xs in
    rw (v.tail ∙ e, v.head)
      (record {
        chain = Seg-snoc h.next h.prev node t x xs none e v.distinct a v.chain;
        head = refl;
        tail = sym (last-snoc (some x) xs node);
        distinct = IsDistinct-snoc (x ∷ xs) node v.distinct a;
        count = omega (arith, v.count, length-append xs (node ∷ []));
      })

-- `frame_list_add_head_nolock` puts a node that is not in the list before the others.
pub add_head-IsList :
    (node : ℕ) (l : FrameList) (h : Links) (xs : List ℕ)
    → length xs < 4294967295
    → Avoids node xs
    → IsList h l xs
    → let (l', h') = add_head node l h in IsList h' l' (node ∷ xs)
unfolding add_head
add_head-IsList node l h [] n a v =
    rw (v.tail, v.head)
      (record {
        chain = ground arith;
        head = refl;
        tail = refl;
        distinct = (tt, tt);
        count = omega (arith, v.count);
      })
add_head-IsList node l h (x ∷ xs) n a v =
    let (t, e) = last-some x xs in
    rw (v.tail ∙ e, v.head)
      (record {
        chain = (
          ground (arith, a.0),
          ground (arith, a.0),
          (
            ground (arith, a.0),
            ground (arith, a.0, v.chain.1),
            Seg-write_next h.next _ (some x) none (some x) node xs a.1 (
                Seg-write_prev h.next _ (some x) none (some node) x xs v.distinct.0
                  (Seg-write_prev h.next h.prev (some x) none none node xs a.1 v.chain.2)),
          ),
        );
        head = refl;
        tail = sym e;
        distinct = (a, v.distinct);
        count = omega (arith, v.count);
      })

-- What the writes of a removal leave alone, and what they set.
prev_kept :
    (next prev : ℕ → Option ℕ) (node x : ℕ) (ys : List ℕ) (left right : Option ℕ)
    → x ≢ node
    → Avoids x ys
    → write
        (set_prev_of
          (first ys none)
          left
          (set_next_of left right (record { next = next; prev = prev }))).prev
        node
        none
        x
      ≡ prev x
prev_kept next prev node x [] none right n a = ground arith
prev_kept next prev node x [] (some p) right n a = ground arith
prev_kept next prev node x (y ∷ ys) none right n a = ground (arith, a.0)
prev_kept next prev node x (y ∷ ys) (some p) right n a = ground (arith, a.0)

next_kept :
    (next prev : ℕ → Option ℕ) (node x p : ℕ) (ys : List ℕ) (right : Option ℕ)
    → x ≢ node
    → x ≢ p
    → write
        (set_prev_of
          (first ys none)
          (some p)
          (set_next_of (some p) right (record { next = next; prev = prev }))).next
        node
        none
        x
      ≡ next x
next_kept next prev node x p [] right n m = ground arith
next_kept next prev node x p (y ∷ ys) right n m = ground arith

next_set :
    (next prev : ℕ → Option ℕ) (node p : ℕ) (ys : List ℕ) (right : Option ℕ)
    → p ≢ node
    → write
        (set_prev_of
          (first ys none)
          (some p)
          (set_next_of (some p) right (record { next = next; prev = prev }))).next
        node
        none
        p
      ≡ right
next_set next prev node p [] right n = ground arith
next_set next prev node p (y ∷ ys) right n = ground arith

-- Taking out the node between `xs` and `ys`, with the writes of frame_list_remove_nolock.
Seg-remove :
    (next prev : ℕ → Option ℕ) (node : ℕ) (xs ys : List ℕ) (before : Option ℕ)
    → IsDistinct (xs ++ (node ∷ ys))
    → AvoidsEnd before (xs ++ (node ∷ ys))
    → Seg next prev before (xs ++ (node ∷ ys)) none
    → let h₁ = set_next_of (last before xs) (first ys none) (record { next = next; prev = prev }) in
      let h₂ = set_prev_of (first ys none) (last before xs) h₁ in
      Seg (write h₂.next node none) (write h₂.prev node none) before (xs ++ ys) none
Seg-remove next prev node [] [] before d a s = tt
Seg-remove next prev node [] (y ∷ ys) none d a s = (
  ground (arith, d.0.0),
  ground (arith, d.0.0, s.2.1),
  Seg-write_next next _ (some y) none none node ys d.0.1 (
      Seg-write_prev next _ (some y) none none node ys d.0.1
        (Seg-write_prev next prev (some y) none none y ys d.1.0 s.2.2)),
)
Seg-remove next prev node [] (y ∷ ys) (some p) d a s = (
  ground (arith, d.0.0),
  ground (arith, d.0.0, s.2.1, a.1.0),
  Seg-write_next _ _ (some y) none none node ys d.0.1 (
      Seg-write_next next _ (some y) none (some y) p ys a.1.1 (
        Seg-write_prev next _ (some y) none none node ys d.0.1
          (Seg-write_prev next prev (some y) none (some p) y ys d.1.0 s.2.2))),
)
Seg-remove next prev node (x ∷ []) ys before d a s = (
  prev_kept next prev node x ys (some x) (first ys none) d.0.0 d.0.1 ∙ s.0,
  next_set next prev node x ys (first ys none) d.0.0,
  Seg-remove next prev node [] ys (some x) d.1 d.0 s.2,
)
Seg-remove next prev node (x ∷ x' ∷ xs) ys before d a s =
    let (t, e) = last-some x' xs in
    let apart = Avoids-append x (x' ∷ xs) (node ∷ ys) d.0 in
    (
      prev_kept next prev node x ys (last (some x') xs) (first ys none) apart.1.0 apart.1.1 ∙ s.0,
      rw e (next_kept next prev node x t ys (first ys none) apart.1.0 (last-ne x x' t xs apart.0 e))
          ∙ s.1,
      Seg-remove next prev node (x' ∷ xs) ys (some x) d.1 d.0 s.2,
    )

around :
    (next prev : ℕ → Option ℕ) (node : ℕ) (xs ys : List ℕ) (before : Option ℕ)
    → Seg next prev before (xs ++ (node ∷ ys)) none
    → (prev node ≡ last before xs) × (next node ≡ first ys none)
around next prev node [] ys before s = (s.0, s.1)
around next prev node (x ∷ xs) ys before s = around next prev node xs ys (some x) s.2

first-remove :
    (xs ys : List ℕ) (node : ℕ)
    → end_of (last none xs) (first ys none) (first (xs ++ (node ∷ ys)) none) ≡ first (xs ++ ys) none
first-remove [] ys node = refl
first-remove (x ∷ xs) ys node = let (t, e) = last-some x xs in rw e refl

last-remove :
    (xs ys : List ℕ) (node : ℕ) (before : Option ℕ)
    → end_of (first ys none) (last before xs) (last before (xs ++ (node ∷ ys)))
      ≡ last before (xs ++ ys)
last-remove [] [] node before = refl
last-remove [] (y ∷ ys) node before = refl
last-remove (x ∷ xs) ys node before = last-remove xs ys node (some x)

-- The first write does not touch the links of the node itself.
reread :
    (h : Links) (node : ℕ) (xs : List ℕ) (right : Option ℕ)
    → Avoids node xs
    → let h₁ = set_next_of (last none xs) right h in
      (h₁.next node ≡ h.next node) × (h₁.prev node ≡ h.prev node)
reread h node [] right a = (refl, refl)
reread h node (x ∷ xs) right a =
    let (t, e) = last-some x xs in
    let ne = last-ne node x t xs a e in rw e (ground (arith, ne), refl)

-- `frame_list_remove_nolock` takes out the given node, wherever it stands, and keeps the order of the
-- others.
pub remove-IsList :
    (node : ℕ) (l : FrameList) (h : Links) (xs ys : List ℕ)
    → length (xs ++ (node ∷ ys)) < 4294967296
    → IsList h l (xs ++ (node ∷ ys))
    → let (l', h') = remove node l h in IsList h' l' (xs ++ ys)
unfolding remove
remove-IsList node l h xs ys n v =
    let links = around h.next h.prev node xs ys none v.chain in
    let apart = IsDistinct-around xs ys node v.distinct in
    let same = reread h node xs (first ys none) (Avoids-append node xs ys apart.1).0 in
    rw (links.0, links.1, same.0 ∙ links.1, same.1 ∙ links.0, v.head, v.tail)
      (record {
        chain = Seg-remove h.next h.prev node xs ys none v.distinct tt v.chain;
        head = first-remove xs ys node;
        tail = last-remove xs ys node none;
        distinct = apart.0;
        count = omega (arith, v.count, length-append xs (node ∷ ys), length-append xs ys);
      })

abbrev pub rest : List ℕ → List ℕ
rest [] = []
rest (x ∷ xs) = xs

-- `frame_list_pop_head` gives the first node and leaves the others in order; from the empty list it
-- gives NULL and changes nothing.
pub pop_head-IsList :
    (l : FrameList) (h : Links) (xs : List ℕ)
    → length xs < 4294967296
    → IsList h l xs
    → let (node, l', h') = pop_head l h in (node ≡ first xs none) × IsList h' l' (rest xs)
unfolding pop_head
pop_head-IsList l h [] n v =
    rw v.head
      (refl, record { chain = tt; head = refl; tail = v.tail; distinct = tt; count = v.count })
pop_head-IsList l h (x ∷ xs) n v =
    rw (v.head, v.chain.1, v.tail)
      (
        refl,
        record {
          chain = Seg-remove h.next h.prev x [] xs none v.distinct tt v.chain;
          head = refl;
          tail = last-remove [] xs x none;
          distinct = v.distinct.1;
          count = omega (arith, v.count);
        },
      )
