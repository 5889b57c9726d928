-- ===== src/Driver/Update.antt =====
-- vfdmod/linux_vfd/pt6964.c: the words that `hardware_update_display` sends end up in the chip's RAM.
use vfdd.Prelude.Bits.{and-byte}
use vfdd.Prelude.{
  ℕ, zero, suc, ◌+◌, ◌*◌, ◌/◌, ◌%◌, ◌≤◌, ◌<◌, bit_and, ◌≡◌, refl, sym, ap, ap₂, subst, ◌∙◌, ◌⊎◌,
  inl, inr, List, [], ◌∷◌, ◌++◌, append_assoc, arith, ◌==◌, ==_iff, ==_ne, Bool-cases, length, set,
  length-append,
}
use vfdd.Driver.Bus.{
  Pin, cmd_data_setting, cmd_address_set, pt6964_send, no_word, pred_u32, word_start, update_loop,
  stb,
}
use vfdd.Driver.Chip.{Core, Chip, command, start_frame, chip_pin, run, run-append, selected}
use vfdd.Driver.Frames.{released, writing, run-cmd, command-write, At, address-At, At-word}

-- The display RAM with these words, low byte first.
abbrev pub words_bytes : List ℕ → List ℕ
words_bytes [] = []
words_bytes (w ∷ ws) = w % 256 ∷ w / 256 ∷ words_bytes ws

pub set-prefix :
    (pre : List ℕ) (x y : ℕ) (rest : List ℕ) (i : ℕ)
    → i ≡ length pre
    → set (pre ++ x ∷ rest) i y ≡ pre ++ y ∷ rest
set-prefix [] x y rest zero e = refl
set-prefix [] x y rest (suc i) e = absurd (omega arith)
set-prefix (p ∷ pre) x y rest zero e = absurd (omega arith)
set-prefix (p ∷ pre) x y rest (suc i) e = ap (λ t. p ∷ t) (set-prefix pre x y rest i (omega arith))

-- Every word has 16 bits.
abbrev pub All16 : List ℕ → Type 0
All16 [] = Unit {0}
All16 (w ∷ ws) = (w < 65536) × All16 ws

-- Where the loop stands at word `i`: nothing has been sent, or the chip is behind word `pofs`.
abbrev pub Sent : ℕ → ℕ → Chip → List ℕ → Type 0
Sent pofs i c ram = ((pofs ≡ no_word) × (c.core.ram ≡ ram)) ⊎ ((pofs < i) × At (pofs + 1) ram c)

-- What comes before the bytes of word `i` leaves the chip at that word.
word_start-At :
    (pofs i : ℕ) (c : Chip) (ram : List ℕ)
    → i < 32
    → Sent pofs i c ram
    → At i ram (run c (word_start pofs i))
unfolding word_start run chip_pin
word_start-At pofs i c ram h (inl (e, same)) =
    let k = command (start_frame c.core) (cmd_data_setting 1 0) in
    let (l, out) = run-cmd c (cmd_data_setting 1 0) (omega arith) in
    let opened = command-write (start_frame c.core) in
    rw (e, ==_ne no_word (pred_u32 i) (omega arith), run-append, out)
      (subst (λ r. At i r (run (released l k) (stb 0 ∷ pt6964_send (cmd_address_set (i * 2)))))
        (ap (λ (x : Core). x.ram) opened ∙ same)
        (address-At (released l k) i h (ap (λ (x : Core). x.auto_inc) opened)
          (ap (λ (x : Core). x.reading) opened)))
word_start-At pofs i c ram h (inr (lt, at)) = elim (Bool-cases (pofs == pred_u32 i)) [
  | inl next ↦
      let here : pofs + 1 ≡ i = omega (arith, (==_iff pofs (pred_u32 i)).0 next) in
      rw (==_ne pofs no_word (omega arith), next) (subst (λ n. At n ram c) here at)
  | inr apart ↦
      rw (==_ne pofs no_word (omega arith), apart)
        (rw at.is (
          address-At
            (selected at.clock at.line [] (writing ram ((pofs + 1) * 2) at.control at.mode)) i h
            refl refl))
]

Sent-ram : (pofs i : ℕ) (c : Chip) (ram : List ℕ) → Sent pofs i c ram → c.core.ram ≡ ram
Sent-ram pofs i c ram (inl (e, same)) = same
Sent-ram pofs i c ram (inr (lt, at)) = ap (λ (x : Chip). x.core.ram) at.is

Sent-suc : (pofs i : ℕ) (c : Chip) (ram : List ℕ) → Sent pofs i c ram → Sent pofs (i + 1) c ram
Sent-suc pofs i c ram (inl h) = inl h
Sent-suc pofs i c ram (inr (lt, at)) = inr (omega arith, at)

-- The two bytes of a word go over those of the old word.
set-word :
    (pre : List ℕ) (x y lo hi : ℕ) (rest : List ℕ) (i : ℕ)
    → length pre ≡ i * 2
    → set (set (pre ++ x ∷ y ∷ rest) (i * 2) lo) (i * 2 + 1) hi ≡ (pre ++ lo ∷ hi ∷ []) ++ rest
set-word pre x y lo hi rest i e =
    ap (λ t. set t (i * 2 + 1) hi) (set-prefix pre x lo (y ∷ rest) (i * 2) (omega arith))
    ∙ (ap (λ t. set t (i * 2 + 1) hi) (sym (append_assoc pre (lo ∷ []) (y ∷ rest)))
        ∙ (set-prefix (pre ++ lo ∷ []) y hi rest (i * 2 + 1)
              (omega (arith, length-append pre (lo ∷ [])))
            ∙ (append_assoc pre (lo ∷ []) (hi ∷ rest)
                ∙ sym (append_assoc pre (lo ∷ hi ∷ []) rest))))

-- A word that differs is sent, and the loop is behind it.
send_word-Sent :
    (pofs i r o : ℕ) (os pre : List ℕ) (c : Chip)
    → i < 32
    → length pre ≡ i * 2
    → r < 65536
    → Sent pofs i c (pre ++ words_bytes (o ∷ os))
    → Sent i
        (i + 1)
        (run (run c (word_start pofs i)) (pt6964_send (bit_and r 0xff) ++ pt6964_send (r / 256)))
        ((pre ++ r % 256 ∷ r / 256 ∷ []) ++ words_bytes os)
send_word-Sent pofs i r o os pre c h at w sent = inr (
  omega arith,
  subst
      (λ t.
        At (i + 1) t
          (run (run c (word_start pofs i)) (pt6964_send (bit_and r 0xff) ++ pt6964_send (r / 256))))
      (set-word pre (o % 256) (o / 256) (bit_and r 0xff) (r / 256) (words_bytes os) i at
        ∙ ap (λ n. (pre ++ n ∷ r / 256 ∷ []) ++ words_bytes os) (and-byte r))
      (At-word i (pre ++ words_bytes (o ∷ os)) (run c (word_start pofs i)) (bit_and r 0xff)
        (r / 256) (word_start-At pofs i c (pre ++ words_bytes (o ∷ os)) h sent)
        (omega (arith, and-byte r)) (omega arith)),
)

-- The loop of `hardware_update_display` from word `i` on: where the chip's RAM holds `pre` and then the
-- old words, it takes the RAM to `pre` and then the new words, which are what it notes as sent. There
-- are as many new words as old, of 16 bits each, and 32 words at most. `Sent` says where the last word
-- that was sent left the chip.
pub update_loop-ram :
    (rs os : List ℕ) (i pofs : ℕ) (c : Chip) (pre : List ℕ)
    → length rs ≡ length os
    → i + length os ≤ 32
    → length pre ≡ i * 2
    → All16 rs
    → Sent pofs i c (pre ++ words_bytes os)
    → ((run c (update_loop i pofs rs os).0).core.ram ≡ pre ++ words_bytes rs)
      × ((update_loop i pofs rs os).1 ≡ rs)
unfolding update_loop
update_loop-ram [] [] i pofs c pre len fits at words sent = elim (Bool-cases (pofs == no_word)) [
  | inl e ↦ rw e (unfold run in Sent-ram pofs i c (pre ++ []) sent, refl)
  | inr e ↦ rw e (unfold run chip_pin in Sent-ram pofs i c (pre ++ []) sent, refl)
]
update_loop-ram (r ∷ rs) (o ∷ os) i pofs c pre len fits at (w, words) sent =
    elim (Bool-cases (r == o)) [
      | inl e ↦
          let same : o ≡ r = sym ((==_iff r o).0 e) in
          let there =
            subst (Sent pofs (i + 1) c)
              (ap (λ n. pre ++ (n % 256 ∷ n / 256 ∷ words_bytes os)) same
                ∙ sym (append_assoc pre (r % 256 ∷ r / 256 ∷ []) (words_bytes os)))
              (Sent-suc pofs i c (pre ++ words_bytes (o ∷ os)) sent) in
          let (ih, ih') =
            update_loop-ram rs os (i + 1) pofs c (pre ++ r % 256 ∷ r / 256 ∷ []) (omega arith)
              (omega arith) (omega (arith, length-append pre (r % 256 ∷ r / 256 ∷ []))) words
              there in
          rw (e, update_loop)
            (ih ∙ append_assoc pre (r % 256 ∷ r / 256 ∷ []) (words_bytes rs), ap₂ ◌∷◌ same ih')
      | inr e ↦
          let d =
            run (run c (word_start pofs i))
              (pt6964_send (bit_and r 0xff) ++ pt6964_send (r / 256)) in
          let (ih, ih') =
            update_loop-ram rs os (i + 1) i d (pre ++ r % 256 ∷ r / 256 ∷ []) (omega arith)
              (omega arith) (omega (arith, length-append pre (r % 256 ∷ r / 256 ∷ []))) words
              (send_word-Sent pofs i r o os pre c (omega arith) at w sent) in
          rw (e, update_loop)
            (
              ap (λ (x : Chip). x.core.ram) (sent_all (update_loop (i + 1) i rs os).0)
                  ∙ (ih ∙ append_assoc pre (r % 256 ∷ r / 256 ∷ []) (words_bytes rs)),
              ap (λ t. r ∷ t) ih',
            )
    ]
  where
    sent_all :
        (ps : List Pin)
        → run c
            (word_start pofs i ++ (pt6964_send (bit_and r 0xff) ++ (pt6964_send (r / 256) ++ ps)))
          ≡ run
              (run
                (run c (word_start pofs i))
                (pt6964_send (bit_and r 0xff) ++ pt6964_send (r / 256)))
              ps
    sent_all ps = simp run-append
update_loop-ram [] (o ∷ os) i pofs c pre len fits at words sent = absurd (omega arith)
update_loop-ram (r ∷ rs) [] i pofs c pre len fits at words sent = absurd (omega arith)
