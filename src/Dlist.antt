-- ===== src/Dlist.antt =====
-- dlist.c and appclass.c: a doubly linked ring with a special head, and the reference counts of what
-- it holds. Addresses are numbers, 0 is NULL, and the address of a new node is an argument.
pub mod Ring
pub mod Adds
pub mod Takes
pub mod Queue
pub mod Walk
pub mod Walks
pub mod Deletes
pub mod Tests
use vfdd.Prelude.{
  ℕ, ◌+◌, ◌-◌, List, [], ◌∷◌, ◌++◌, ◌==◌, if◌then◌else◌, Outcome, ◌>>=◌, done, fatal, fault,
}

-- The objects: `count` is the reference count, 0 if there is no object at the address. The other
-- fields are those of `struct _DList`, `item` for its `data`. `destroyed` has the objects that are no list
-- nodes and whose `destroy` has been called, in order; what such a call does is up to their class.
pub record Mem : Type 0 where
  pub count : ℕ → ℕ
  pub next : ℕ → ℕ
  pub prev : ℕ → ℕ
  pub item : ℕ → ℕ
  pub destroyed : List ℕ

abbrev pub put : (ℕ → ℕ) → ℕ → ℕ → ℕ → ℕ
put f p v q = if q == p then v else f q

-- `p->…`: a fault at NULL and at an object that is gone.
abbrev pub read : Mem → (ℕ → ℕ) → ℕ → Outcome ℕ
read m field p = if p == 0 then fault else if m.count p == 0 then fault else done (field p)

abbrev pub set_next : Mem → ℕ → ℕ → Outcome Mem
set_next m p v = do _ ← read m m.next p; done (record m { next = put m.next p v })

abbrev pub set_prev : Mem → ℕ → ℕ → Outcome Mem
set_prev m p v = do _ ← read m m.prev p; done (record m { prev = put m.prev p v })

-- `app_class_ref`
unfoldable pub app_class_ref : Mem → ℕ → Outcome Mem
app_class_ref m p =
    if p == 0
    then fatal
    else if m.count p == 0
    then fault
    else done (record m { count = put m.count p (m.count p + 1) })

-- `app_class_unref` of an object that is no list node: at 0 its `destroy` is called.
unfoldable pub unref_data : Mem → ℕ → Outcome Mem
unref_data m p =
    if p == 0
    then fatal
    else if m.count p == 0
    then fault
    else done (record m {
      count = put m.count p (m.count p - 1);
      destroyed = if m.count p == 1 then m.destroyed ++ p ∷ [] else m.destroyed;
    })

-- `dlist_destroy_node`, whose last reference is gone.
unfoldable pub destroy_node : Mem → ℕ → Outcome Mem
destroy_node m p = do
  d ← read m m.item p
  m' ← if d == 0 then done m else unref_data m d
  done (record m' { count = put m'.count p 0 })

-- `app_class_unref` of a list node
unfoldable pub unref_node : Mem → ℕ → Outcome Mem
unref_node m p =
    if p == 0
    then fatal
    else if m.count p == 0
    then fault
    else if m.count p == 1
    then destroy_node m p
    else done (record m { count = put m.count p (m.count p - 1) })

-- `dlist_new_node` at the fresh address `n`, with `dlist_construct_node`
unfoldable pub new_node : Mem → ℕ → ℕ → Mem
new_node m n d = record {
  count = put m.count n 1;
  next = put m.next n n;
  prev = put m.prev n n;
  item = put m.item n d;
  destroyed = m.destroyed;
}

-- `dlist_add_at` behind the test for NULL: the four writes.
unfoldable pub add_behind : Mem → ℕ → ℕ → ℕ → Outcome Mem
add_behind m fresh head d = do
  let m₁ = new_node m fresh d
  after ← read m₁ m₁.next head
  before ← read m₁ m₁.prev after
  m₂ ← set_prev m₁ fresh before
  after' ← read m₂ m₂.next head
  m₃ ← set_prev m₂ after' fresh
  after'' ← read m₃ m₃.next head
  m₄ ← set_next m₃ fresh after''
  set_next m₄ head fresh

-- `dlist_add_at`, with an address for a head if there is none: the memory and the head.
unfoldable pub add_at : Mem → ℕ → ℕ → ℕ → ℕ → Outcome (Mem × ℕ)
add_at m spare fresh head d =
    if head == 0
    then (do m' ← add_behind (new_node m spare 0) fresh spare d; done (m', spare))
    else (do m' ← add_behind m fresh head d; done (m', head))

-- `dlist_add_head`
unfoldable pub add_head : Mem → ℕ → ℕ → ℕ → ℕ → Outcome (Mem × ℕ)
add_head m spare fresh head d = add_at m spare fresh head d

-- `dlist_add_tail`
unfoldable pub add_tail : Mem → ℕ → ℕ → ℕ → ℕ → Outcome (Mem × ℕ)
add_tail m spare fresh head d =
    if head == 0
    then add_at m spare fresh head d
    else (do last ← read m m.prev head; (m', _) ← add_at m spare fresh last d; done (m', head))

-- `dlist_remove`
unfoldable pub remove : Mem → ℕ → Outcome Mem
remove m node = if node == 0 then done m else (do
  before ← read m m.prev node
  after ← read m m.next node
  m₁ ← set_next m before after
  after' ← read m₁ m₁.next node
  before' ← read m₁ m₁.prev node
  m₂ ← set_prev m₁ after' before'
  unref_node m₂ node)

-- `dlist_get_data`: 0 is NULL.
unfoldable pub get_data : Mem → ℕ → ℕ → Outcome ℕ
get_data m head node =
    if head == 0 then done 0 else if node == head then done 0 else read m m.item node

-- `dlist_get_data_rm_node`
unfoldable pub get_data_rm_node : Mem → ℕ → ℕ → Outcome (Mem × ℕ)
get_data_rm_node m head node = do
  d ← get_data m head node
  if d == 0 then done (m, 0) else (do m₁ ← app_class_ref m d; m₂ ← remove m₁ node; done (m₂, d))

-- `dlist_dequeue_head` and `dlist_dequeue_tail`
unfoldable pub dequeue_head : Mem → ℕ → Outcome (Mem × ℕ)
dequeue_head m head =
    if head == 0 then done (m, 0) else (do node ← read m m.next head; get_data_rm_node m head node)

unfoldable pub dequeue_tail : Mem → ℕ → Outcome (Mem × ℕ)
dequeue_tail m head =
    if head == 0 then done (m, 0) else (do node ← read m m.prev head; get_data_rm_node m head node)
