-- ===== src/Mm/Alloc/Cover.antt =====
-- The addresses that the entries of the table stand for, counted at each address.
use native.Mathlib.Nat.{mod-lt, mod-add-mod, mod_self}
use lambda_os.Prelude.{
  sym, ap, ◌∙◌, ℕ, ◌+◌, ◌-◌, ◌%◌, ◌^◌, ◌<◌, ◌≤◌, ◌≡◌, true, false, ◌&&◌, ltb, leb, if◌then◌else◌,
  arith,
}
use lambda_os.Mm.Alloc.Table.{Alcent, Allocs}
use lambda_os.Mm.Alloc.Search.{offset}
use lambda_os.Mm.Alloc.Tally.{tally, tally_block, Ignores}
use lambda_os.Mm.Alloc.Place.{address, pieces}

-- 1 where `x` is one of the `n` addresses from `p` on.
abbrev pub within : ℕ → ℕ → ℕ → ℕ
within p n x = if leb p x && ltb x (p + n) then 1 else 0

-- Does the entry stand for the address, and as memory in use?
abbrev pub covering : ℕ → Alcent → ℕ
covering x e = if e.valid then within e.addr e.size x else 0

abbrev pub holding : ℕ → Alcent → ℕ
holding x e = if e.used then covering x e else 0

-- How many entries stand for the address, and how many of them are in use.
abbrev pub cover : ℕ → Allocs → ℕ
cover x = tally (covering x)

abbrev pub held : ℕ → Allocs → ℕ
held x = tally (holding x)

pub covering-Ignores : (x : ℕ) → Ignores (covering x)
covering-Ignores x e v = ground arith

pub holding-Ignores : (x : ℕ) → Ignores (holding x)
holding-Ignores x e v = ground arith

-- An entry from which `sz` bytes can be taken at the alignment.
pub record IsHole (sz align : ℕ) (e : Alcent) : Type 0 where
  pub valid : e.valid ≡ true
  pub unused : e.used ≡ false
  pub fit : sz + offset align e.addr ≤ e.size
  pub bounded : e.addr + e.size ≤ 2 ^ 32
  pub word : e.size < 2 ^ 32

-- The distance to the next multiple leads to it.
round_up : (a n : ℕ) → 0 < n → (a + (n - a % n)) % n ≡ 0
round_up a n pos =
    let whole : a % n + (n - a % n) ≡ n = omega (arith, mod-lt a pos) in
    sym (mod-add-mod a n (n - a % n)) ∙ ap (λ k. k % n) whole ∙ mod_self n

module _ (sz align : ℕ) {e : Alcent} (h : IsHole sz align e) (pos : 0 < align)
    (some_bytes : 0 < sz) where
  -- The entries that replace a hole stand for its addresses, each once.
  pub pieces-covering : (x : ℕ) → tally_block (covering x) (pieces sz align e) ≡ covering x e
  pieces-covering x = ground arith

  pub pieces-holding :
      (x : ℕ) → tally_block (holding x) (pieces sz align e) ≡ within (address sz align e) sz x
  pieces-holding x = ground arith

  pub address-inside :
      (address sz align e % align ≡ 0)
      × (e.addr ≤ address sz align e)
      × (address sz align e + sz ≤ e.addr + e.size)
  address-inside = ground (arith, round_up e.addr align pos)
