-- ===== src/Json/Rendered.antt =====
-- jsonroot.c: `json_root_print_value` prints the text of a tree.
use vfdd.Json.Escapes.{grown_len, Holds-trans}
use vfdd.Prelude.{
  ℕ, suc, ◌+◌, ◌-◌, ◌≡◌, ◌∙◌, Option, none, List, [], ◌∷◌, ◌++◌, arith, length-append, Outcome,
  ◌>>=◌,
}
use vfdd.Dbuf.{DBuf}
use vfdd.Json.Tree.{
  JsonType, Value, Printer, put, put_indent, next_item, iter_array, iter_object, print_array,
  print_object, null_text, false_text, true_text, print_kind, json_undef, json_false, json_true,
  json_null, json_number, json_string, json_array, json_object, zeroed, value, ptr,
}
use vfdd.Json.Writes.{
  Writes, Any, Count, Writes-then, Writes-Count, done-Writes, put-Writes, put_text-Writes, optional,
  put_if_format-Writes, put_str-Writes, indentation, put_indent-Writes, comma, next_item-Writes,
}
use vfdd.Json.Render.{field_text, array_text, object_text, kind_text, HasMember}

-- One item of an array, given that the value is printed.
pub iter_array-Writes :
    (p : Printer) (text : List ℕ) (k : ℕ) (print : Printer → Outcome Printer)
    → p.count ≡ suc k
    → Writes p text Any (print p)
    → Writes p (text ++ comma p.format k) (Count k) (iter_array print p)
unfolding iter_array
iter_array-Writes p text k print same w =
    Writes-then p text (comma p.format k) Any (Count k) (print p)
      (λ q. next_item (record q { count = p.count })) w
      (λ e n _. next_item-Writes (record p { dest = e }) k same)

-- The same of an object: the key and the signs round the value.
pub iter_object-Writes :
    (p : Printer) (key : Option (List ℕ)) (text : List ℕ) (k : ℕ)
    (print : Printer → Outcome Printer)
    → p.count ≡ suc k
    → ((e : DBuf) (n : ℕ)
        → Writes
            (record p { dest = e; count = n })
            text
            Any
            (print (record p { dest = e; count = n })))
    → Writes p (field_text p.format p.depth key text k) (Count k) (iter_object key print p)
unfolding iter_object field_text
iter_object-Writes p key text k print same w =
    Writes-then p _ _ (Count p.count) (Count k) _ _ (put_indent-Writes p) (λ e₁ n₁ c₁.
      Writes-then (at e₁ n₁) _ _ (Count n₁) (Count k) _ _ (put_str-Writes key (at e₁ n₁))
        (λ e₂ n₂ c₂.
          Writes-then (at e₂ n₂) _ _ (Count n₂) (Count k) _ _ (put-Writes b':' (at e₂ n₂))
            (λ e₃ n₃ c₃.
              Writes-then (at e₃ n₃) _ _ (Count n₃) (Count k) _ _
                (put_if_format-Writes b'\t' (at e₃ n₃))
                (λ e₄ n₄ c₄. Writes-then (at e₄ n₄) _ _ Any (Count k) _ _ (w e₄ n₄) (λ e₅ n₅ _.
                  Writes-then (at e₅ n₅) _ _ (Count k) (Count k) _ _
                    (next_item-Writes (at e₅ n₄) k (c₄ ∙ (c₃ ∙ (c₂ ∙ (c₁ ∙ same)))))
                    (λ e₆ n₆ c₆.
                      Writes-Count (at e₆ n₆) _ n₆ k _ c₆
                        (put_if_format-Writes b'\n' (at e₆ n₆))))))))
  where
    at : DBuf → ℕ → Printer
    at e n = record p { dest = e; count = n }

-- The children, one level deeper, and what comes behind them at the level of `p`.
deeper-Writes :
    (p : Printer) (text more : List ℕ) (n : ℕ) (items go : Printer → Outcome Printer)
    → Writes
        (record p { count = n; depth = p.depth + 1 })
        text
        Any
        (items (record p { count = n; depth = p.depth + 1 }))
    → ((e : DBuf) (m : ℕ)
        → Writes
            (record p { dest = e; count = m })
            more
            (Count m)
            (go (record p { dest = e; count = m })))
    → Writes p (text ++ more) Any (do
      q ← items (record p { count = n; depth = p.depth + 1 })
      go (record q { depth = q.depth - 1 }))
deeper-Writes p text more n items go w next v h =
    let (e, m, same, held, _) = w v (omega (arith, length-append text more)) in
    let l = grown_len p.dest e text v.0 held in
    let (e', m', same', held', _) =
      next e m (held.valid, held.ended) (omega (arith, length-append text more)) in
    let back : p.depth + 1 - 1 ≡ p.depth = omega arith in
    (e', m', rw same (rw back same'), Holds-trans p.dest e e' text more held held', tt)

print_array-Writes :
    (p : Printer) (n : ℕ) (text : List ℕ) (items : Printer → Outcome Printer)
    → ((e : DBuf)
        → Writes
            (record p { dest = e; count = n; depth = p.depth + 1 })
            text
            Any
            (items (record p { dest = e; count = n; depth = p.depth + 1 })))
    → Writes p (array_text text) Any (print_array n items p)
unfolding print_array array_text
print_array-Writes p n text items w =
    Writes-then p _ _ (Count p.count) Any _ _ (put-Writes b'[' p) (λ e₁ n₁ _.
      deeper-Writes (record p { dest = e₁; count = n₁ }) text (b']' ∷ []) n items (put b']') (w e₁)
        (λ e m. put-Writes b']' (record p { dest = e; count = m })))

print_object-Writes :
    (p : Printer) (n : ℕ) (text : List ℕ) (items : Printer → Outcome Printer)
    → ((e : DBuf)
        → Writes
            (record p { dest = e; count = n; depth = p.depth + 1 })
            text
            Any
            (items (record p { dest = e; count = n; depth = p.depth + 1 })))
    → Writes p (object_text p.format p.depth text) Any (print_object n items p)
unfolding print_object object_text
print_object-Writes p n text items w =
    Writes-then p _ _ (Count p.count) Any _ _ (put-Writes b'{' p) (λ e₁ n₁ _.
      Writes-then (at e₁ n₁) _ _ (Count n₁) Any _ _ (put_if_format-Writes b'\n' (at e₁ n₁))
        (λ e₂ n₂ _.
          deeper-Writes (at e₂ n₂) text (optional p.format (indentation p.depth) ++ b'}' ∷ []) n
            items (λ q. put_indent q >>= put b'}') (w e₂)
            (λ e m.
              Writes-then (at e m) _ _ (Count m) (Count m) _ _ (put_indent-Writes (at e m))
                (λ e₃ n₃ c₃. Writes-Count (at e₃ n₃) _ n₃ m _ c₃ (put-Writes b'}' (at e₃ n₃))))))
  where
    at : DBuf → ℕ → Printer
    at e n = record p { dest = e; count = n }

pub Any-count :
    (p : Printer) (text : List ℕ) (out : Outcome Printer)
    → Writes p text (Count p.count) out
    → Writes p text Any out
Any-count p text out w v h = let (e, n, same, held, _) = w v h in (e, n, same, held, tt)

pub print_kind-Writes :
    {D : Type 0} (nought : D) (number_text : D → List ℕ) (type : JsonType) (u : Value D)
    (p : Printer) (n : ℕ) (elems fields : List ℕ) (go_elems go_fields : Printer → Outcome Printer)
    → HasMember type u
    → ((e : DBuf)
        → Writes
            (record p { dest = e; count = n; depth = p.depth + 1 })
            elems
            Any
            (go_elems (record p { dest = e; count = n; depth = p.depth + 1 })))
    → ((e : DBuf)
        → Writes
            (record p { dest = e; count = n; depth = p.depth + 1 })
            fields
            Any
            (go_fields (record p { dest = e; count = n; depth = p.depth + 1 })))
    → Writes p
        (kind_text nought number_text p.format p.depth type u elems fields)
        Any
        (print_kind nought number_text type u n go_elems go_fields p)
unfolding print_kind kind_text HasMember
print_kind-Writes nought number_text json_undef u p n es fs ge gf t we wf = done-Writes p Any tt
print_kind-Writes nought number_text json_false u p n es fs ge gf t we wf =
    Any-count p _ _ (put_text-Writes false_text p)
print_kind-Writes nought number_text json_true u p n es fs ge gf t we wf =
    Any-count p _ _ (put_text-Writes true_text p)
print_kind-Writes nought number_text json_null u p n es fs ge gf t we wf =
    Any-count p _ _ (put_text-Writes null_text p)
print_kind-Writes nought number_text json_number (value d) p n es fs ge gf t we wf =
    Any-count p _ _ (put_text-Writes (number_text d) p)
print_kind-Writes nought number_text json_number zeroed p n es fs ge gf t we wf =
    Any-count p _ _ (put_text-Writes (number_text nought) p)
print_kind-Writes nought number_text json_number (ptr s) p n es fs ge gf t we wf = absurd t
print_kind-Writes nought number_text json_string (value d) p n es fs ge gf t we wf = absurd t
print_kind-Writes nought number_text json_string zeroed p n es fs ge gf t we wf =
    Any-count p _ _ (put_str-Writes none p)
print_kind-Writes nought number_text json_string (ptr s) p n es fs ge gf t we wf =
    Any-count p _ _ (put_str-Writes s p)
print_kind-Writes nought number_text json_array u p n es fs ge gf t we wf =
    print_array-Writes p n es ge we
print_kind-Writes nought number_text json_object u p n es fs ge gf t we wf =
    print_object-Writes p n fs gf wf
