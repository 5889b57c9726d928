-- ===== src/Dlist/Walk.antt =====
-- dlist.c: the operations that walk a ring. A loop has fuel: as many rounds as there are nodes, and one
-- for the test that ends it. `same` is a compare function that gives 0.
use vfdd.Prelude.{
  ℕ, zero, suc, ◌+◌, Bool, true, false, not, ◌&&◌, ◌||◌, Option, none, some, ◌==◌, if◌then◌else◌,
  drop, Outcome, ◌>>=◌, ◌>>?◌, done,
}
use vfdd.Dlist.{Mem, read, unref_data, unref_node, new_node, add_behind, remove}

-- `while (node != head)` of `dlist_lookup`, behind the tests: 0 is NULL.
unfoldable pub lookup_loop : (ℕ → ℕ → Bool) → ℕ → Mem → ℕ → ℕ → ℕ → Option (Outcome ℕ)
lookup_loop same zero m head d node = none
lookup_loop same (suc f) m head d node =
    if node == head
    then some (done 0)
    else read m m.item node >>? λ x.
        if same x d
        then some (done x)
        else read m m.next node >>? λ after. lookup_loop same f m head d after

unfoldable pub lookup : (ℕ → ℕ → Bool) → ℕ → Mem → ℕ → ℕ → Option (Outcome ℕ)
lookup same f m head d =
    if head == 0
    then some (done 0)
    else read m m.next head >>? λ node. lookup_loop same f m head d node

-- The loop of `dlist_get_nelem`
unfoldable pub nelem_loop : ℕ → Mem → ℕ → ℕ → ℕ → Option (Outcome ℕ)
nelem_loop zero m head node n = none
nelem_loop (suc f) m head node n =
    if node == head
    then some (done n)
    else read m m.next node >>? λ after. nelem_loop f m head after (n + 1)

-- `dlist_get_nelem`, with `dlist_isempty`
unfoldable pub get_nelem : ℕ → Mem → ℕ → Option (Outcome ℕ)
get_nelem f m head =
    if head == 0
    then some (done 0)
    else read m m.next head >>? λ node.
        if node == head then some (done 0) else nelem_loop f m head node 0

-- `dlist_get_ndata`
unfoldable pub ndata_loop : ℕ → Mem → ℕ → ℕ → ℕ → ℕ → Option (Outcome ℕ)
ndata_loop zero m head n node i = none
ndata_loop (suc f) m head n node i =
    if node == head
    then some (done 0)
    else if i == n
    then some (read m m.item node)
    else read m m.next node >>? λ after. ndata_loop f m head n after (i + 1)

unfoldable pub get_ndata : ℕ → Mem → ℕ → ℕ → Option (Outcome ℕ)
get_ndata f m head n =
    if head == 0 then some (done 0) else read m m.next head >>? λ node. ndata_loop f m head n node 0

-- `dlist_delete`: the compare function is there.
unfoldable pub delete_loop : (ℕ → ℕ → Bool) → ℕ → Mem → ℕ → ℕ → ℕ → Option (Outcome Mem)
delete_loop same zero m head d node = none
delete_loop same (suc f) m head d node =
    if node == head
    then some (done m)
    else read m m.item node >>? λ x.
        if same x d
        then some (remove m node)
        else read m m.next node >>? λ after. delete_loop same f m head d after

unfoldable pub delete : (ℕ → ℕ → Bool) → ℕ → Mem → ℕ → ℕ → Option (Outcome Mem)
delete same f m head d =
    if head == 0
    then some (done m)
    else read m m.next head >>? λ node. delete_loop same f m head d node

-- `dlist_delete_all`: the nodes, then the special node.
unfoldable pub delete_all_loop : ℕ → Mem → ℕ → ℕ → Option (Outcome Mem)
delete_all_loop zero m head node = none
delete_all_loop (suc f) m head node =
    if node == head
    then some (unref_node m node)
    else read m m.next node >>? λ after. unref_node m node >>? λ m'. delete_all_loop f m' head after

unfoldable pub delete_all : ℕ → Mem → ℕ → Option (Outcome Mem)
delete_all f m head =
    if head == 0
    then some (done m)
    else read m m.next head >>? λ node. delete_all_loop f m head node

-- `dlist_delete_list`: `*head` is NULL afterwards.
unfoldable pub delete_list : ℕ → Mem → ℕ → Option (Outcome Mem)
delete_list f m head =
    if head == 0
    then some (done m)
    else read m m.next head >>? λ node.
        if node == head then some (unref_node m head) else delete_all f m head

-- The search of `dlist_add` for a node that is equal.
unfoldable pub exists_loop : (ℕ → ℕ → Bool) → ℕ → Mem → ℕ → ℕ → ℕ → Option (Outcome Bool)
exists_loop same zero m head d node = none
exists_loop same (suc f) m head d node =
    if node == head
    then some (done false)
    else read m m.item node >>? λ x.
        if same x d
        then some (done true)
        else read m m.next node >>? λ after. exists_loop same f m head d after

unfoldable pub exists : Option (ℕ → ℕ → Bool) → ℕ → Mem → ℕ → ℕ → Option (Outcome Bool)
exists none f m head d = some (done false)
exists (some same) f m head d = read m m.next head >>? λ node. exists_loop same f m head d node

-- The end of `dlist_add`, by whether an equal node was found; `drop` is `*res` on entry.
unfoldable pub add_unless : Bool → Mem → ℕ → ℕ → ℕ → Bool → Outcome (Mem × ℕ × Bool)
add_unless true m fresh head d drop = do
  m' ← if drop then unref_data m d else done m
  done (m', head, true)
add_unless false m fresh head d drop = do
  last ← read m m.prev head
  m' ← add_behind m fresh last d
  done (m', head, false)

-- `dlist_add` with a `res`: the memory, the head, and the new `*res`. A head that is missing is made
-- at `spare`.
unfoldable pub add :
    Option (ℕ → ℕ → Bool) → ℕ → Mem → ℕ → ℕ → ℕ → ℕ → Bool → Option (Outcome (Mem × ℕ × Bool))
add same f m spare fresh head d drop =
    let m₁ = if head == 0 then new_node m spare 0 else m in
    let h = if head == 0 then spare else head in
    elim (exists same f m₁ h d) [
      | none ↦ none
      | some out ↦ some (do found ← out; add_unless found m₁ fresh h d drop)
    ]

-- `DLIST_RM_NODE` and `DLIST_RM_NODE_CONT`
abbrev pub rm_node : ℕ
rm_node = 0x7fff0000

abbrev pub rm_node_cont : ℕ
rm_node_cont = 0x7fff0001

module _ {S : Type 0} (func : S → Mem → ℕ → Outcome (S × Mem × ℕ)) where
  -- The loop of `dlist_iterator`: `func` is called with the item, `S` is its user data.
  unfoldable pub iterator_loop : ℕ → S → Mem → ℕ → ℕ → Option (Outcome (S × Mem × ℕ))
  iterator_loop zero s m head node = none
  iterator_loop (suc f) s m head node =
      if node == head
      then some (done (s, m, 0))
      else (do x ← read m m.item node; func s m x) >>? λ (s', m₁, ret).
          read m₁ m₁.next node >>? λ after.
          (if ret == rm_node || ret == rm_node_cont then remove m₁ node else done m₁) >>? λ m₂.
          if not (ret == 0) && not (ret == rm_node_cont)
          then some (done (s', m₂, ret))
          else iterator_loop f s' m₂ head after

  -- `dlist_iterator` with a function
  unfoldable pub iterator : ℕ → S → Mem → ℕ → Option (Outcome (S × Mem × ℕ))
  iterator f s m head =
      if head == 0
      then some (done (s, m, 0))
      else read m m.next head >>? λ node. iterator_loop f s m head node
