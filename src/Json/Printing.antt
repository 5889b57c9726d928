-- ===== src/Json/Printing.antt =====
-- jsonroot.c: `json_root_print_value` and `json_root_dbuf_print` on a whole tree.
use vfdd.Prelude.{ℕ, ◌+◌, ◌≤◌, ◌≡◌, refl, Bool, List, [], ◌∷◌, ◌++◌, length, done}
use vfdd.Dbuf.{DBuf}
use vfdd.Dbuf.Bounds.{max_len}
use vfdd.Dbuf.Contents.{contents, Holds}
use vfdd.Json.Tree.{
  Node, Nodes, Printer, count_nodes, key_of, print_value, print_elems, print_fields, dbuf_print,
  node, nil, cons,
}
use vfdd.Json.Writes.{
  IsEnded, Writes, Any, Count, Writes-then, done-Writes, optional, put_if_format-Writes,
}
use vfdd.Json.Render.{IsTyped, AllTyped, value_text, elems_text, fields_text}
use vfdd.Json.Rendered.{iter_array-Writes, iter_object-Writes, Any-count, print_kind-Writes}

module _ {D : Type 0} (nought : D) (number_text : D → List ℕ) where
  mutual
    unfolding print_value value_text IsTyped count_nodes

    value-Writes :
        (x : Node D) (p : Printer)
        → IsTyped x
        → Writes p
            (value_text nought number_text p.format p.depth x)
            Any
            (print_value nought number_text x p)
    value-Writes (node type key u child) p t =
        print_kind-Writes nought number_text type u p (count_nodes child) _ _
          (print_elems nought number_text child) (print_fields nought number_text child) t.0
          (λ e.
            elems-Writes child
              (record p { dest = e; count = count_nodes child; depth = p.depth + 1 }) refl t.1)
          (λ e.
            fields-Writes child
              (record p { dest = e; count = count_nodes child; depth = p.depth + 1 }) refl t.1)

    elems-Writes :
        (xs : Nodes D) (p : Printer)
        → p.count ≡ count_nodes xs
        → AllTyped xs
        → Writes p
            (elems_text nought number_text p.format p.depth xs)
            Any
            (print_elems nought number_text xs p)
    elems-Writes nil p same t = done-Writes p Any tt
    elems-Writes (cons x xs) p same t =
        Writes-then p _ _ (Count (count_nodes xs)) Any _ _
          (iter_array-Writes p _ (count_nodes xs) (print_value nought number_text x) same
            (value-Writes x p t.0))
          (λ e n c. elems-Writes xs (record p { dest = e; count = n }) c t.1)

    fields-Writes :
        (xs : Nodes D) (p : Printer)
        → p.count ≡ count_nodes xs
        → AllTyped xs
        → Writes p
            (fields_text nought number_text p.format p.depth xs)
            Any
            (print_fields nought number_text xs p)
    fields-Writes nil p same t = done-Writes p Any tt
    fields-Writes (cons x xs) p same t =
        Writes-then p _ _ (Count (count_nodes xs)) Any _ _
          (iter_object-Writes p (key_of x) _ (count_nodes xs) (print_value nought number_text x)
            same (λ e n. value-Writes x (record p { dest = e; count = n }) t.0))
          (λ e n c. fields-Writes xs (record p { dest = e; count = n }) c t.1)

  pub dbuf_print-IsPrinted :
      (x : Node D) (dest : DBuf) (format : Bool) (count : ℕ)
      → IsTyped x
      → IsEnded dest
      → dest.len + length (value_text nought number_text format 0 x ++ optional format (b'\n' ∷ []))
        ≤ max_len
      → (e : DBuf) × (n : ℕ) × (dbuf_print nought number_text x dest format count
          ≡ done (record { dest = e; count = n; depth = 0; format = format }))
        × Holds
            (contents dest
              ++ (value_text nought number_text format 0 x ++ optional format (b'\n' ∷ [])))
            dest.pos
            dest.lineno
            dest.flags
            e
  unfolding dbuf_print
  dbuf_print-IsPrinted x dest format count t v h =
      let p : Printer = record { dest = dest; count = count; depth = 0; format = format } in
      let (e, n, same, held, _) =
        Writes-then p _ _ Any Any _ _ (value-Writes x p t)
          (λ e n _.
            Any-count (record p { dest = e; count = n }) _ _
              (put_if_format-Writes b'\n' (record p { dest = e; count = n })))
          v h in
      (e, n, same, held)
