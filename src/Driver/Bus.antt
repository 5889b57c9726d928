-- ===== src/Driver/Bus.antt =====
-- vfdmod/linux_vfd/pt6964.c and pt6964.h: the command bytes, and what the driver does with the pins.
-- The delays are left out.
use vfdd.Prelude.{
  ℕ, zero, suc, ◌+◌, ◌-◌, ◌*◌, ◌/◌, ◌%◌, ◌^◌, bit_and, bit_or, true, false, List, [], ◌∷◌, ◌++◌,
  ◌==◌, if◌then◌else◌,
}
use vfdd.Driver.{Vfd}

-- The calls of `STB`, `CLK` and `DO`, with their values, and those of `DI`, with the level that is read.
pub data Pin : Type 0 where
  stb : ℕ → Pin
  clk : ℕ → Pin
  dido : ℕ → Pin
  di : ℕ → Pin

abbrev pub cmd_display_mode : ℕ → ℕ
cmd_display_mode mode = bit_or 0x00 mode

abbrev pub cmd_data_setting : ℕ → ℕ → ℕ
cmd_data_setting inc read =
    bit_or (bit_or 0x40 (if inc == 0 then 4 else 0)) (if read == 0 then 0 else 2)

abbrev pub cmd_address_set : ℕ → ℕ
cmd_address_set addr = bit_or 0xc0 addr

abbrev pub cmd_display_control : ℕ → ℕ → ℕ
cmd_display_control en bri = bit_or (bit_or 0x80 (if en == 0 then 0 else 8)) bri

-- `for (i = 8; i != 0; i--, data >>= 1)`: `n` bits are left.
unfoldable pub send_loop : ℕ → ℕ → List Pin
send_loop zero data_left = []
send_loop (suc n) data_left =
    clk 0 ∷ dido (bit_and data_left 1) ∷ clk 1 ∷ send_loop n (data_left / 2)

-- `pt6964_send`; `data` is a `u8`.
unfoldable pub pt6964_send : ℕ → List Pin
pt6964_send byte = send_loop 8 (byte % 256)

-- `pt6964_cmd`
unfoldable pub pt6964_cmd : ℕ → List Pin
pt6964_cmd cmd = stb 0 ∷ pt6964_send cmd ++ stb 1 ∷ []

-- The loop of `pt6964_clear_dram`.
unfoldable pub clear_loop : ℕ → List Pin
clear_loop zero = []
clear_loop (suc n) = pt6964_send 0 ++ clear_loop n

unfoldable pub pt6964_clear_dram : ℕ → List Pin
pt6964_clear_dram words =
    pt6964_cmd (cmd_data_setting 1 0)
    ++ (stb 0 ∷ pt6964_send (cmd_address_set 0) ++ (clear_loop (words * 2) ++ stb 1 ∷ []))

-- `hardware_update_brightness`: the brightness in force, and the command for it.
unfoldable pub brightness_now : Vfd → ℕ
brightness_now v =
    if v.enabled == 0 then 0 else if v.suspended == 0 then v.brightness else v.brightness_suspend

unfoldable pub hardware_update_brightness : Vfd → List Pin
hardware_update_brightness v =
    if brightness_now v == 0
    then pt6964_cmd (cmd_display_control 0 0)
    else pt6964_cmd (cmd_display_control 1 (brightness_now v - 1))

-- `hardware_suspend`
unfoldable pub hardware_suspend : Vfd → ℕ → Vfd × List Pin
hardware_suspend v enable =
    let v' = record v { suspended = enable % 256 } in (v', hardware_update_brightness v')

-- `pofs` before any word is sent.
abbrev pub no_word : ℕ
no_word = 0x6964

-- `i - 1` on `unsigned`
abbrev pub pred_u32 : ℕ → ℕ
pred_u32 i = (i + (2 ^ 32 - 1)) % 2 ^ 32

-- What comes before the two bytes of word `i`.
unfoldable pub word_start : ℕ → ℕ → List Pin
word_start pofs i =
    (if pofs == no_word
      then pt6964_cmd (cmd_data_setting 1 0)
      else if pofs == pred_u32 i
      then []
      else stb 1 ∷ [])
    ++ (if pofs == pred_u32 i then [] else stb 0 ∷ pt6964_send (cmd_address_set (i * 2)))

-- The loop of `hardware_update_display` from word `i` on: `raw` and `raw_display` from there. It gives
-- the pin events and the new `raw_display`.
unfoldable pub update_loop : ℕ → ℕ → List ℕ → List ℕ → List Pin × List ℕ
update_loop i pofs (r ∷ rs) (o ∷ os) =
    let same = update_loop (i + 1) pofs rs os in
    let sent = update_loop (i + 1) i rs os in
    elim (r == o) [
      | true ↦ (same.0, o ∷ same.1)
      | false ↦ (
        word_start pofs i ++ (pt6964_send (bit_and r 0xff) ++ (pt6964_send (r / 256) ++ sent.0)),
        r ∷ sent.1,
      )
    ]
update_loop i pofs _ _ = (if pofs == no_word then [] else stb 1 ∷ [], [])
