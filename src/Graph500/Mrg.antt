-- ===== src/Graph500/Mrg.antt =====
-- The multiple recursive generator of trident-workloads/graph500/generator/splittable_mrg.c: states,
-- transition matrices, and the steps that they make. `mrg_skip_matrices` is a generated table:
-- here a function of the byte's place and value.
pub mod Apply
pub mod Steps
pub mod Rows
pub mod Product
pub mod Compose
pub mod Skip
use trident_micro21_artifact.Graph500.Seed.{MrgSeed}
use trident_micro21_artifact.Graph500.ModArith.{
  mod_mul_x, mod_mac4, mod_mul, mod_add, mod_mac2, mod_mul_y, mod_mac3, mod_mac_y, mod_mac,
}
use trident_micro21_artifact.Base.{ℕ, zero, suc, ◌/◌, ◌%◌, ◌^◌, bit_and, ◌==◌, if◌then◌else◌}

pub record MrgState : Type 0 where
  pub z1 : ℕ
  pub z2 : ℕ
  pub z3 : ℕ
  pub z4 : ℕ
  pub z5 : ℕ

-- `mrg_transition_matrix`
pub record Matrix : Type 0 where
  pub s : ℕ
  pub t : ℕ
  pub u : ℕ
  pub v : ℕ
  pub w : ℕ
  pub a : ℕ
  pub b : ℕ
  pub c : ℕ
  pub d : ℕ

-- Setting `s` to `w`, then `mrg_update_cache`.
unfoldable pub mrg_update_cache : (s t u v w : ℕ) → Matrix
mrg_update_cache s t u v w =
    let a = mod_add (mod_mul_x s) t in
    let b = mod_add (mod_mul_x a) u in
    let c = mod_add (mod_mul_x b) v in
    let d = mod_add (mod_mul_x c) w in
    record { s = s; t = t; u = u; v = v; w = w; a = a; b = b; c = c; d = d }

unfoldable pub mrg_make_identity : Matrix
mrg_make_identity = mrg_update_cache 0 0 0 0 1

-- `mrg_make_A`
unfoldable pub mrg_make_a : Matrix
mrg_make_a = mrg_update_cache 0 0 0 1 0

unfoldable pub mrg_multiply : Matrix → Matrix → Matrix
mrg_multiply m n =
    mrg_update_cache
      (mod_mac (mod_mac (mod_mac (mod_mac (mod_mul m.s n.d) m.t n.c) m.u n.b) m.v n.a) m.w n.s)
      (mod_mac (mod_mac (mod_mac (mod_mac (mod_mul_y (mod_mul m.s n.s)) m.t n.w) m.u n.v) m.v n.u)
        m.w n.t)
      (mod_mac (mod_mac (mod_mac (mod_mul_y (mod_mac (mod_mul m.s n.a) m.t n.s)) m.u n.w) m.v n.v)
        m.w n.u)
      (mod_mac (mod_mac (mod_mul_y (mod_mac (mod_mac (mod_mul m.s n.b) m.t n.a) m.u n.s)) m.v n.w)
        m.w n.v)
      (mod_mac (mod_mul_y (mod_mac (mod_mac (mod_mac (mod_mul m.s n.c) m.t n.b) m.u n.a) m.v n.s))
        m.w n.w)

-- while (exponent > 0) { if (exponent % 2 == 1) ...; ...; exponent /= 2; }
unfoldable pub power_loop : (fuel exponent : ℕ) → (current result : Matrix) → Matrix
power_loop zero exponent current result = result
power_loop (suc f) exponent current result =
    let next = if exponent % 2 == 1 then mrg_multiply result current else result in
    let rest = power_loop f (exponent / 2) (mrg_multiply current current) next in
    if exponent == 0 then result else rest

-- `exponent` is an `unsigned int`: 32 rounds are enough.
unfoldable pub mrg_power : Matrix → (exponent : ℕ) → Matrix
mrg_power m exponent = power_loop 32 exponent m mrg_make_identity

unfoldable pub mrg_apply_transition : Matrix → MrgState → MrgState
mrg_apply_transition m st = record {
  z1 = mod_mac_y (mod_mul m.d st.z1) (mod_mac4 0 m.s st.z2 m.a st.z3 m.b st.z4 m.c st.z5);
  z2 = mod_mac_y (mod_mac2 0 m.c st.z1 m.w st.z2) (mod_mac3 0 m.s st.z3 m.a st.z4 m.b st.z5);
  z3 = mod_mac_y (mod_mac3 0 m.b st.z1 m.v st.z2 m.w st.z3) (mod_mac2 0 m.s st.z4 m.a st.z5);
  z4 = mod_mac_y (mod_mac4 0 m.a st.z1 m.u st.z2 m.v st.z3 m.w st.z4) (mod_mul m.s st.z5);
  z5 = mod_mac2 (mod_mac3 0 m.s st.z1 m.t st.z2 m.u st.z3) m.v st.z4 m.w st.z5;
}

-- `mrg_step`
unfoldable pub mrg_step : Matrix → MrgState → MrgState
mrg_step = mrg_apply_transition

unfoldable pub mrg_orig_step : MrgState → MrgState
mrg_orig_step st = record {
  z1 = mod_mac_y (mod_mul_x st.z1) st.z5;
  z2 = st.z1;
  z3 = st.z2;
  z4 = st.z3;
  z5 = st.z4;
}

-- for (; exponent; ++byte_index, exponent >>= 8) { ... }; a word has eight bytes.
unfoldable pub skip_bytes :
    (matrices : ℕ → ℕ → Matrix) (rounds byte_index exponent : ℕ) → MrgState → MrgState
skip_bytes matrices zero byte_index exponent st = st
skip_bytes matrices (suc f) byte_index exponent st =
    let val = bit_and exponent 0xFF in
    let next = if val == 0 then st else mrg_step (matrices byte_index val) st in
    let rest = skip_bytes matrices f (suc byte_index) (exponent / 2 ^ 8) next in
    if exponent == 0 then st else rest

unfoldable pub mrg_skip :
    (matrices : ℕ → ℕ → Matrix) (exponent_high exponent_middle exponent_low : ℕ)
    → MrgState
    → MrgState
mrg_skip matrices high middle low st =
    skip_bytes matrices 8 16 high (skip_bytes matrices 8 8 middle (skip_bytes matrices 8 0 low st))

-- The value, and the state after it.
unfoldable pub mrg_get_uint_orig : MrgState → ℕ × MrgState
mrg_get_uint_orig st = let next = mrg_orig_step st in (next.z1, next)

unfoldable pub mrg_seed : MrgSeed → MrgState
mrg_seed seed = record {
  z1 = seed.seed0;
  z2 = seed.seed1;
  z3 = seed.seed2;
  z4 = seed.seed3;
  z5 = seed.seed4;
}
