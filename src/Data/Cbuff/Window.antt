-- ===== src/Data/Cbuff/Window.antt =====
-- The bytes of a circular buffer, read round its end.
use lambda_os.Prelude.{
  ℕ, zero, suc, ◌+◌, ◌-◌, ◌≤◌, ◌<◌, ◌≡◌, ◌≢◌, refl, ap, ap₂, ◌∙◌, List, [], ◌∷◌, ◌++◌, arith,
  length, get_or, set, get_or-set_self, get_or-set_ne,
}
use lambda_os.Data.Cbuff.{wrap}

-- `n` bytes of `b` from index `h` on, where `size` is followed by 0.
abbrev pub window : List ℕ → ℕ → ℕ → ℕ → List ℕ
window b size h zero = []
window b size h (suc n) = get_or b h 0 ∷ window b size (wrap (h + 1) size) n

pub length-window : (b : List ℕ) (size h n : ℕ) → length (window b size h n) ≡ n
length-window b size h zero = refl
length-window b size h (suc n) = ap suc (length-window b size (wrap (h + 1) size) n)

-- The code tests `count == 0`, and `window` matches on `suc`.
pub window_of_pos :
    (b : List ℕ) (size h n : ℕ)
    → 0 < n
    → window b size h n ≡ get_or b h 0 ∷ window b size (wrap (h + 1) size) (n - 1)
window_of_pos b size h zero p = elim p [ ]
window_of_pos b size h (suc n) p = ap (λ k. window b size h (suc k)) (omega arith)

wrap-ne : (size h n : ℕ) → h < size → suc n < size → wrap (h + suc n) size ≢ h
wrap-ne size h n p q = ground arith

wrap-wrap :
    (size h n : ℕ)
    → h < size
    → suc n < size
    → wrap (h + suc n) size ≡ wrap (wrap (h + 1) size + n) size
wrap-wrap size h n p q = ground arith

wrap-lt : (size h : ℕ) → h < size → wrap (h + 1) size < size
wrap-lt size h p = ground arith

wrap-zero : (size h : ℕ) → h < size → wrap (h + zero) size ≡ h
wrap-zero size h p = ground arith

-- A byte written just behind a window makes it longer by that byte.
pub window-set :
    (b : List ℕ) (size x n h i : ℕ)
    → size ≤ length b
    → h < size
    → n < size
    → i ≡ wrap (h + n) size
    → window (set b i x) size h (suc n) ≡ window b size h n ++ x ∷ []
window-set b size x zero h i room hin nin e =
    let here : i ≡ h = e ∙ wrap-zero size h hin in
    rw here (ap (λ y. y ∷ []) (get_or-set_self b h x 0 (omega arith)))
window-set b size x (suc n) h i room hin nin e =
    ap₂ ◌∷◌ (get_or-set_ne b i h x 0 (rw e (wrap-ne size h n hin nin))) (
      window-set b size x n (wrap (h + 1) size) i room (wrap-lt size h hin) (omega arith)
        (e ∙ wrap-wrap size h n hin nin))
