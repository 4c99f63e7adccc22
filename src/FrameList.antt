-- ===== src/FrameList.antt =====
-- components/smart_lock/src/frame/frame_que_v2.c: the doubly-linked frame list over a heap of links.
-- `IsList` says which node addresses a list stands for; `FrameList.Refine` compares the
-- pointer operations with the list operations that the model of the queue uses.
pub mod Seg
pub mod Refine
mod Tests
use bk_solution_doorbell.Base.{
  ℕ, ◌+◌, ◌%◌, ◌-◌, Bool, true, false, Option, none, some, ◌==◌, if◌then◌else◌,
}

-- The `next` and `prev` fields of each node; `none` is NULL.
pub record Links : Type 0 where
  pub next : ℕ → Option ℕ
  pub prev : ℕ → Option ℕ

-- `frame_list_t`.
pub record FrameList : Type 0 where
  pub head : Option ℕ
  pub tail : Option ℕ
  pub count : ℕ

abbrev pub write : (ℕ → Option ℕ) → ℕ → Option ℕ → ℕ → Option ℕ
write f p v a = if p == a then v else f a

-- `p->next = v`, `p->prev = v`.
abbrev pub set_next : ℕ → Option ℕ → Links → Links
set_next p v h = record h { next = write h.next p v }

abbrev pub set_prev : ℕ → Option ℕ → Links → Links
set_prev p v h = record h { prev = write h.prev p v }

-- `if (p != NULL) p->next = v;`, and so for `prev`.
abbrev pub set_next_of : Option ℕ → Option ℕ → Links → Links
set_next_of none v h = h
set_next_of (some p) v h = set_next p v h

abbrev pub set_prev_of : Option ℕ → Option ℕ → Links → Links
set_prev_of none v h = h
set_prev_of (some p) v h = set_prev p v h

-- `if (x == NULL) x = node;`.
abbrev pub or_node : Option ℕ → ℕ → Option ℕ
or_node none node = some node
or_node (some p) node = some p

-- frame_list_init, with a list that is not NULL.
unfoldable pub init : FrameList
init = record { head = none; tail = none; count = 0 }

-- frame_list_add_tail_nolock. In this and the next function `count++` on a `uint32_t`.
unfoldable pub add_tail : ℕ → FrameList → Links → FrameList × Links
add_tail node l h =
    let h₁ = set_prev node l.tail (set_next node none h) in
    let h₂ = set_next_of l.tail (some node) h₁ in
    (
      record { head = or_node l.head node; tail = some node; count = (l.count + 1) % 4294967296 },
      h₂,
    )

-- frame_list_add_head_nolock.
unfoldable pub add_head : ℕ → FrameList → Links → FrameList × Links
add_head node l h =
    let h₁ = set_prev node none (set_next node l.head h) in
    let h₂ = set_prev_of l.head (some node) h₁ in
    (
      record { head = some node; tail = or_node l.tail node; count = (l.count + 1) % 4294967296 },
      h₂,
    )

-- The two tests of frame_list_remove_nolock: what becomes of the list's end where there is no
-- neighbour.
abbrev pub end_of : Option ℕ → Option ℕ → Option ℕ → Option ℕ
end_of none over old = over
end_of (some p) over old = old

-- frame_list_remove_nolock; `count--` on a `uint32_t`. The second test reads the node's links again.
unfoldable pub remove : ℕ → FrameList → Links → FrameList × Links
remove node l h =
    let h₁ = set_next_of (h.prev node) (h.next node) h in
    let h₂ = set_prev_of (h₁.next node) (h₁.prev node) h₁ in
    (
      record {
        head = end_of (h.prev node) (h.next node) l.head;
        tail = end_of (h₁.next node) (h₁.prev node) l.tail;
        count = (l.count + 4294967295) % 4294967296;
      },
      set_prev node none (set_next node none h₂),
    )

-- frame_list_pop_head.
unfoldable pub pop_head : FrameList → Links → Option ℕ × FrameList × Links
pop_head l h = elim l.head [
  | none ↦ (none, l, h)
  | some node ↦
      let after = h.next node in
      (
        some node,
        record {
          head = after;
          tail = end_of after none l.tail;
          count = (l.count + 4294967295) % 4294967296;
        },
        set_prev node none (set_next node none (set_prev_of after none h)),
      )
]
