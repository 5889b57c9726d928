-- ===== src/Selloop/Watched.antt =====
-- selloop.c: the descriptors that are watched are those of the channels.
use mathlib.Core.Bool.{false≢true}
use vfdd.Prelude.{
  ℕ, ◌+◌, ◌≤◌, ◌<◌, ◌≡◌, refl, sym, ap, ◌∙◌, ◌≢◌, Bool, true, false, ◌||◌, Option, none, some, List,
  [], ◌∷◌, ◌++◌, arith, ltb, ◌==◌, if◌then◌else◌, lt→ltb, ==_iff, ==_ne, done,
}
use vfdd.Selloop.{
  Channel, Loop, fd_setsize, set_bit, set_fds, clr_fds, channel_add, mark_removed,
  channel_remove_fd, delete_channel, channel_remove,
}

abbrev pub is_fd : ℕ → Option ℕ → Bool
is_fd k none = false
is_fd k (some s) = k == s

-- A channel has the descriptor.
unfoldable pub has_fd : ℕ → List Channel → Bool
has_fd k [] = false
has_fd k (x ∷ xs) = is_fd k x.fd || has_fd k xs

-- The mask has the descriptors of the channels and no other, and each is below the width.
pub record IsWatching (loop : Loop) : Type 0 where
  pub mask : (k : ℕ) → loop.fdsmsk k ≡ has_fd k loop.channels
  pub bound : (k : ℕ) → loop.fdsmsk k ≡ true → k < loop.width

or_assoc : (a b c : Bool) → ((a || b) || c) ≡ (a || (b || c))
or_assoc true b c = refl
or_assoc false b c = refl

has_fd-append : (k : ℕ) (xs ys : List Channel) → has_fd k (xs ++ ys) ≡ (has_fd k xs || has_fd k ys)
unfolding has_fd
has_fd-append k [] ys = refl
has_fd-append k (x ∷ xs) ys =
    ap (λ b. is_fd k x.fd || b) (has_fd-append k xs ys)
    ∙ sym (or_assoc (is_fd k x.fd) (has_fd k xs) (has_fd k ys))

-- `loop_channel_add` of a channel with a descriptor that an `fd_set` can hold, on a loop that watches
-- what its channels have, succeeds: the channel is the last one, and the loop watches what its channels
-- have then, the new descriptor included.
pub channel_add-IsWatching :
    (loop : Loop) (id s : ℕ)
    → IsWatching loop
    → s < fd_setsize
    → (w : Loop) × (channel_add loop (record { id = id; fd = some s }) ≡ done w)
      × (w.channels ≡ loop.channels ++ record { id = id; fd = some s } ∷ [])
      × IsWatching w
unfolding channel_add set_fds set_bit has_fd
channel_add-IsWatching loop id s v h =
    let width = if ltb loop.width (s + 1) then s + 1 else loop.width in
    let large : (loop.width ≤ width) × (s + 1 ≤ width) = ground arith in
    (
      record loop {
        channels = loop.channels ++ record { id = id; fd = some s } ∷ [];
        width = width;
        fdsmsk = λ k. if k == s then true else loop.fdsmsk k;
      },
      rw (lt→ltb s fd_setsize h) refl,
      refl,
      record {
        mask = λ k.
            or_set (k == s) (loop.fdsmsk k)
            ∙ (ap (λ m. m || ((k == s) || false)) (v.mask k)
                ∙ sym (has_fd-append k loop.channels (record { id = id; fd = some s } ∷ [])));
        bound = λ k e. below k (k == s) refl e width large;
      },
    )
  where
    or_set : (b m : Bool) → (if b then true else m) ≡ (m || (b || false))
    or_set true true = refl
    or_set true false = refl
    or_set false true = refl
    or_set false false = refl

    below :
        (k : ℕ) (b : Bool)
        → (k == s) ≡ b
        → (if b then true else loop.fdsmsk k) ≡ true
        → (width : ℕ) → (loop.width ≤ width) × (s + 1 ≤ width)
        → k < width
    below k true same e width large = omega (arith, large.1, (==_iff k s).0 same)
    below k false same e width large = omega (arith, large.0, v.bound k e)

has_fd-other :
    (k id s : ℕ) (ys : List Channel)
    → (k == s) ≡ false
    → has_fd k (record { id = id; fd = some s } ∷ ys) ≡ has_fd k ys
unfolding has_fd
has_fd-other k id s ys e = rw e refl

-- No channel is the object `id`.
abbrev pub HasNot : ℕ → List Channel → Type 0
HasNot id [] = Unit {0}
HasNot id (x ∷ xs) = (x.id ≢ id) × HasNot id xs

mark_removed-other : (id : ℕ) (xs : List Channel) → HasNot id xs → mark_removed id xs ≡ xs
unfolding mark_removed
mark_removed-other id [] h = refl
mark_removed-other id (x ∷ xs) h =
    rw (==_ne x.id id h.0) (ap (λ t. x ∷ t) (mark_removed-other id xs h.1))

mark_removed-delete :
    (id : ℕ) (fd : Option ℕ) (xs ys : List Channel)
    → HasNot id xs
    → HasNot id ys
    → delete_channel id (mark_removed id (xs ++ record { id = id; fd = fd } ∷ ys)) ≡ xs ++ ys
unfolding mark_removed delete_channel
mark_removed-delete id fd [] ys h k =
    rw ((==_iff id id).1 refl, (==_iff id id).1 refl) (mark_removed-other id ys k)
mark_removed-delete id fd (x ∷ xs) ys h k =
    rw (==_ne x.id id h.0, ==_ne x.id id h.0)
      (ap (λ t. x ∷ t) (mark_removed-delete id fd xs ys h.1 k))

-- `loop_channel_remove` of a channel of the list, which is there once and whose descriptor is no other
-- channel's: the other channels stay in their order, and their descriptors are watched.
pub channel_remove-IsWatching :
    (loop : Loop) (id s : ℕ) (xs ys : List Channel)
    → IsWatching loop
    → loop.channels ≡ xs ++ record { id = id; fd = some s } ∷ ys
    → HasNot id xs
    → HasNot id ys
    → has_fd s xs ≡ false
    → has_fd s ys ≡ false
    → s < fd_setsize
    → (w : Loop) × (channel_remove loop (record { id = id; fd = some s }) ≡ done w)
      × (w.channels ≡ xs ++ ys)
      × IsWatching w
unfolding channel_remove channel_remove_fd clr_fds set_bit
channel_remove-IsWatching loop id s xs ys v here hx hy fx fy h = (
  record loop {
    channels = delete_channel id (mark_removed id loop.channels);
    fdsmsk = λ k. if k == s then false else loop.fdsmsk k;
  },
  rw (lt→ltb s fd_setsize h) refl,
  left,
  record {
    mask = λ k.
        ap (λ m. if k == s then false else m) (v.mask k)
        ∙ watched k (k == s) refl
        ∙ sym (ap (has_fd k) left);
    bound = λ k e. below k (k == s) e;
  },
)
  where
    left : delete_channel id (mark_removed id loop.channels) ≡ xs ++ ys
    left =
        ap (λ l. delete_channel id (mark_removed id l)) here
        ∙ mark_removed-delete id (some s) xs ys hx hy

    below : (k : ℕ) (b : Bool) → (if b then false else loop.fdsmsk k) ≡ true → k < loop.width
    below k true e = absurd (false≢true e)
    below k false e = v.bound k e

    watched :
        (k : ℕ) (b : Bool)
        → (k == s) ≡ b
        → (if b then false else has_fd k loop.channels) ≡ has_fd k (xs ++ ys)
    watched k true same = sym (
        has_fd-append k xs ys
        ∙ (ap (λ j. has_fd j xs || has_fd j ys) ((==_iff k s).0 same) ∙ rw (fx, fy) refl))
    watched k false same =
        ap (has_fd k) here
        ∙ (has_fd-append k xs (record { id = id; fd = some s } ∷ ys)
            ∙ (ap (λ b. has_fd k xs || b) (has_fd-other k id s ys same)
                ∙ sym (has_fd-append k xs ys)))
