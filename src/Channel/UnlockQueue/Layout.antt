-- ===== src/Channel/UnlockQueue/Layout.antt =====
-- How the packets of a queue lie in its ring, one behind the other from `head` to `tail`.
use yarf.Common.{
  ℕ, ◌+◌, ◌-◌, ◌%◌, ◌≤◌, ◌<◌, ◌≡◌, refl, ◌∙◌, ap, sym, arith, inl, inr, ◌⊎◌, List, [], ◌∷◌, ◌++◌,
  length,
}
use mathlib.Core.Path.{subst}
use native.Mathlib.Nat.{mod-eq_of_lt, mod-lt, mod_self, mod-add-mod, add-mod_right}
use yarf.Channel.Words.{mod-cases}
use yarf.Channel.Memory.{Bytes, Memory, load, u16, load_same}

-- The bytes that a packet takes in the ring.
abbrev pub pack_space : Bytes → ℕ
pack_space m = 48 + length m + 7 - (48 + length m + 7) % 8

-- A packet with the message `m` at a place.
pub record Packet (buf : Memory) (at : ℕ) (m : Bytes) : Type 0 where
  pub small : length m ≤ 65528
  pub cmd_is : u16 buf (at + 8) ≡ 1
  pub align_is : u16 buf (at + 6) ≡ pack_space m - 48
  pub body_is : u16 buf (at + 4) ≡ length m
  pub holds : load (at + 48) (length m) buf ≡ m

-- The end of the ring behind a place is left out: it is too short for a head, or has a place holder.
abbrev pub LeftOut : ℕ → Memory → ℕ → Type 0
LeftOut cap buf at = (cap - at < 48) ⊎ ((at + 48 ≤ cap) × (u16 buf (at + 8) ≡ 2))

-- The messages in `used` bytes from a place on, around the end of the ring. An end that is left out
-- is smaller than the packet behind it.
unfoldable pub Run : ℕ → Memory → ℕ → ℕ → List Bytes → Type 0
Run cap buf at used [] = used ≡ 0
Run cap buf at used (m ∷ ms) =
    ((at + pack_space m ≤ cap)
      × (pack_space m ≤ used)
      × Packet buf at m
      × Run cap buf ((at + pack_space m) % cap) (used - pack_space m) ms)
    ⊎ (LeftOut cap buf at
        × (cap - at < pack_space m)
        × (cap - at + pack_space m ≤ used)
        × Packet buf 0 m
        × Run cap buf (pack_space m % cap) (used - (cap - at) - pack_space m) ms)

-- Offset `i` is one of the `used` bytes from `at` on.
abbrev pub InUse : ℕ → ℕ → ℕ → ℕ → Type 0
InUse cap at used i = ((at ≤ i) × (i < at + used)) ⊎ (i + cap < at + used)

-- What is in use is not changed.
abbrev pub Keeps : ℕ → ℕ → ℕ → Memory → Memory → Type 0
Keeps cap at used buf buf' = (i : ℕ) → i < cap → InUse cap at used i → buf' i ≡ buf i

pub u16_same :
    (buf buf' : Memory) (at : ℕ)
    → buf' at ≡ buf at
    → buf' (at + 1) ≡ buf (at + 1)
    → u16 buf' at ≡ u16 buf at
unfolding u16
u16_same buf buf' at p q = omega (arith, p, q)

pub Packet-same :
    (buf buf' : Memory) (at : ℕ) (m : Bytes)
    → ((i : ℕ) → at ≤ i → i < at + pack_space m → buf' i ≡ buf i)
    → Packet buf at m
    → Packet buf' at m
Packet-same buf buf' at m h p = record {
  small = p.small;
  cmd_is = field 8 (omega arith) ∙ p.cmd_is;
  align_is = field 6 (omega arith) ∙ p.align_is;
  body_is = field 4 (omega arith) ∙ p.body_is;
  holds =
      load_same (at + 48) (length m) buf buf' (λ i q r. h i (omega (arith, q)) (omega (arith, r)))
      ∙ p.holds;
}
  where
    field : (k : ℕ) → k < 47 → u16 buf' (at + k) ≡ u16 buf (at + k)
    field k l =
        u16_same buf buf' (at + k) (h (at + k) (omega arith) (omega (arith, l)))
          (h (at + k + 1) (omega arith) (omega (arith, l)))

-- What is kept behind the first packet, where the rest of the run begins.
rest-Keeps :
    (cap at used step : ℕ) (buf buf' : Memory)
    → at < cap
    → used < cap
    → step ≤ used
    → Keeps cap at used buf buf'
    → Keeps cap ((at + step) % cap) (used - step) buf buf'
rest-Keeps cap at used step buf buf' ha hu hs k i hi u =
    elim (mod-cases cap (at + step) (omega (arith, ha, hu, hs))) [
      | inl c ↦ k i hi (near u c.1)
      | inr c ↦ k i hi (far u c.0 c.1)
    ]
  where
    near :
        InUse cap ((at + step) % cap) (used - step) i
        → (at + step) % cap ≡ at + step
        → InUse cap at used i
    near (inl v) e = inl (omega (arith, v, e), omega (arith, v, e, hs))
    near (inr v) e = inr (omega (arith, v, e, hs))

    far :
        InUse cap ((at + step) % cap) (used - step) i
        → cap ≤ at + step
        → (at + step) % cap ≡ at + step - cap
        → InUse cap at used i
    far (inl v) l e = inr (omega (arith, v, e, hs, l))
    far (inr v) l e = absurd (omega (arith, v, e, hs, l, hu, ha, hi))

-- The end of a run is the end of its rest.
pub rest_end :
    (cap at used step : ℕ)
    → step ≤ used
    → ((at + step) % cap + (used - step)) % cap ≡ (at + used) % cap
rest_end cap at used step hs =
    mod-add-mod (at + step) cap (used - step) ∙ ap (λ (n : ℕ). n % cap) (sum hs)
  where
    sum : step ≤ used → at + step + (used - step) ≡ at + used
    sum h = omega (arith, h)

mod_end : (cap at : ℕ) → at < cap → (at + (cap - at)) % cap ≡ 0
mod_end cap at h = ap (λ (n : ℕ). n % cap) (omega (arith, h)) ∙ mod_self cap

-- The rest of a run that jumps to the start.
start-Keeps :
    (cap at used step : ℕ) (buf buf' : Memory)
    → at < cap
    → used < cap
    → cap - at + step ≤ used
    → Keeps cap at used buf buf'
    → Keeps cap (step % cap) (used - (cap - at) - step) buf buf'
start-Keeps cap at used step buf buf' ha hu hs k =
    subst (λ (n : ℕ). Keeps cap (n % cap) (used - (cap - at) - step) buf buf') zero_add
      (rest-Keeps cap 0 (used - (cap - at)) step buf buf' (omega (arith, ha)) (omega (arith, hu))
        (omega (arith, hs))
        (subst (λ (n : ℕ). Keeps cap n (used - (cap - at)) buf buf') (mod_end cap at ha)
          (rest-Keeps cap at used (cap - at) buf buf' ha hu (omega (arith, hs)) k)))
  where
    zero_add : 0 + step ≡ step
    zero_add = omega arith

pub start_end :
    (cap at used step : ℕ)
    → at < cap
    → cap - at + step ≤ used
    → (step % cap + (used - (cap - at) - step)) % cap ≡ (at + used) % cap
start_end cap at used step ha hs =
    mod-add-mod step cap (used - (cap - at) - step)
    ∙ sym (add-mod_right (step + (used - (cap - at) - step)) cap)
    ∙ ap (λ (n : ℕ). n % cap) (sum ha hs)
  where
    sum : at < cap → cap - at + step ≤ used → step + (used - (cap - at) - step) + cap ≡ at + used
    sum h l = omega (arith, h, l)

pub Run_at :
    (cap : ℕ) (buf : Memory) (at at' used used' : ℕ) (ms : List Bytes)
    → at ≡ at'
    → used ≡ used'
    → Run cap buf at used ms
    → Run cap buf at' used' ms
Run_at cap buf at at' used used' ms e f r =
    subst (λ (n : ℕ). Run cap buf n used' ms) e (subst (λ (n : ℕ). Run cap buf at n ms) f r)

-- Behind a run whose bytes are kept, another one may begin where it ends.
pub Run-append :
    (cap : ℕ) (buf buf' : Memory) (at used extra : ℕ) (ms ns : List Bytes)
    → at < cap
    → used + extra < cap
    → Keeps cap at used buf buf'
    → Run cap buf at used ms
    → Run cap buf' ((at + used) % cap) extra ns
    → Run cap buf' at (used + extra) (ms ++ ns)
unfolding Run
Run-append cap buf buf' at used extra [] ns ha hu k r new =
    Run_at cap buf' ((at + used) % cap) at extra (used + extra) ns
      (ap (λ (n : ℕ). (at + n) % cap) r ∙ ap (λ (n : ℕ). n % cap) (omega arith) ∙ mod-eq_of_lt ha)
      (omega (arith, r)) new
Run-append cap buf buf' at used extra (m ∷ ms) ns ha hu k (inl (a, b, p, r)) new = inl (
  a,
  omega (arith, b),
  Packet-same buf buf' at m (λ i q l. k i (omega (arith, a, l)) (inl (q, omega (arith, b, l)))) p,
  Run_at cap buf' _ _ (used - pack_space m + extra) _ (ms ++ ns) refl (omega (arith, b)) (
      Run-append cap buf buf' ((at + pack_space m) % cap) (used - pack_space m) extra ms ns
        (mod-lt (at + pack_space m) (omega (arith, ha))) (omega (arith, hu, b))
        (rest-Keeps cap at used (pack_space m) buf buf' ha (omega (arith, hu)) b k) r
        (Run_at cap buf' _ _ extra extra ns (sym (rest_end cap at used (pack_space m) b)) refl
          new)),
)
Run-append cap buf buf' at used extra (m ∷ ms) ns ha hu k (inr (l, t, a, p, r)) new = inr (
  left l,
  t,
  omega (arith, a),
  Packet-same buf buf' 0 m (λ i q l. k i (omega (arith, a, l, hu)) (inr (omega (arith, a, l, ha))))
      p,
  Run_at cap buf' _ _ (used - (cap - at) - pack_space m + extra) _ (ms ++ ns) refl
      (omega (arith, a))
      (Run-append cap buf buf' (pack_space m % cap) (used - (cap - at) - pack_space m) extra ms ns
        (mod-lt (pack_space m) (omega (arith, ha))) (omega (arith, hu, a))
        (start-Keeps cap at used (pack_space m) buf buf' ha (omega (arith, hu)) a k) r
        (Run_at cap buf' _ _ extra extra ns (sym (start_end cap at used (pack_space m) ha a)) refl
          new)),
)
  where
    left : LeftOut cap buf at → LeftOut cap buf' at
    left (inl s) = inl s
    left (inr (s, e)) = inr (
      s,
      u16_same buf buf' (at + 8)
            (k (at + 8) (omega (arith, s)) (inl (omega arith, omega (arith, s, a))))
            (k (at + 8 + 1) (omega (arith, s)) (inl (omega arith, omega (arith, s, a))))
          ∙ e,
    )

-- The bytes that the packets of messages take.
abbrev pub space : List Bytes → ℕ
space [] = 0
space (m ∷ ms) = pack_space m + space ms

-- The ends of the ring that are left out are smaller than the packets behind them.
pub Run-space :
    (cap : ℕ) (buf : Memory) (at used : ℕ) (ms : List Bytes)
    → Run cap buf at used ms
    → used ≤ space ms + space ms
unfolding Run
Run-space cap buf at used [] r = omega (arith, r)
Run-space cap buf at used (m ∷ ms) (inl (a, b, p, r)) =
    omega (arith, b, Run-space cap buf ((at + pack_space m) % cap) (used - pack_space m) ms r)
Run-space cap buf at used (m ∷ ms) (inr (l, t, a, p, r)) =
    omega
      (arith, t, a, Run-space cap buf (pack_space m % cap) (used - (cap - at) - pack_space m) ms r)
