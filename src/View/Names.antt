-- ===== src/View/Names.antt =====
-- redshow/include/analysis/torch_view.h: `tv_copy_cstr` and `tv_append_domain`, the bounded copies of
-- the names of Python states. A C string is the list of its bytes before the NUL, and a buffer of
-- `n` bytes holds at most `n - 1` of them.
use mathlib.Core.List.{append_assoc, append-nil}
use ten_prof.Prelude.{
  ℕ, zero, suc, ◌+◌, ◌-◌, ◌<◌, ◌≡◌, sym, ◌∙◌, ap, Option, none, some, List, [], ◌∷◌, ◌++◌, leb,
  ◌==◌, length, take, length-take, length-append, take-append, take_all, if◌then◌else◌, arith,
  Bool-cases, inl, inr,
}

-- `tv_copy_cstr(dst, src, n)`: what `dst` holds afterwards; a null `src` is `none`.
unfoldable pub copy_cstr : List ℕ → Option (List ℕ) → ℕ → List ℕ
copy_cstr dst src n = if n == 0 then dst else elim src [ none ↦ [] | some s ↦ take (n - 1) s ]

-- `strncat(dst, s, k)`.
abbrev pub append_bounded : List ℕ → List ℕ → ℕ → List ℕ
append_bounded dst s k = dst ++ take k s

-- `tv_append_domain(dst, n, dom)`, with `^` between the name and the domain.
unfoldable pub append_domain : List ℕ → ℕ → Option (List ℕ) → List ℕ
append_domain dst n none = dst
append_domain dst n (some dom) =
    if leb n (length dst + 1)
    then dst
    else let marked = append_bounded dst (b'^' ∷ []) (n - length dst - 1) in
      if leb n (length marked + 1)
      then marked
      else append_bounded marked dom (n - length marked - 1)

-- A copied name always fits its buffer, with room for the NUL.
copy_cstr_fits :
    (dst : List ℕ) (src : Option (List ℕ)) (n : ℕ) → 0 < n → length (copy_cstr dst src n) < n
unfolding copy_cstr
copy_cstr_fits dst none n h = ground arith
copy_cstr_fits dst (some s) n h = ground (arith, length-take (n - 1) s)

take_cons : (k x : ℕ) (xs : List ℕ) → 0 < k → take k (x ∷ xs) ≡ x ∷ take (k - 1) xs
take_cons zero x xs h = absurd (omega arith)
take_cons (suc k) x xs h = ap (λ (j : ℕ). x ∷ take j xs) (omega arith)

-- `strncat` of the mark, where there is room for it.
marked_lem :
    (dst : List ℕ) (n : ℕ)
    → length dst + 1 < n
    → append_bounded dst (b'^' ∷ []) (n - length dst - 1) ≡ dst ++ b'^' ∷ []
marked_lem dst n room = ap (◌++◌ dst) (take_all (n - length dst - 1) (b'^' ∷ []) (omega arith))

-- The whole name, cut off behind the mark.
cut_lem :
    (dst : List ℕ) (n : ℕ) (dom : List ℕ)
    → length dst + 1 < n
    → take (n - 1) (dst ++ b'^' ∷ dom) ≡ dst ++ b'^' ∷ take (n - length dst - 2) dom
cut_lem dst n dom room =
    take-append (n - 1) dst (b'^' ∷ dom) (omega arith)
    ∙ ap (◌++◌ dst) (
        take_cons (n - 1 - length dst) b'^' dom (omega arith)
        ∙ ap (λ (j : ℕ). b'^' ∷ take j dom) (omega arith))

take_none : (k : ℕ) (xs : List ℕ) → k ≡ 0 → take k xs ≡ []
take_none k xs e = ap (λ (j : ℕ). take j xs) e

append_domain_full :
    (dst : List ℕ) (n : ℕ) (dom : List ℕ)
    → n ≡ length dst + 1
    → dst ≡ take (n - 1) (dst ++ b'^' ∷ dom)
append_domain_full dst n dom e = sym (
    take-append (n - 1) dst (b'^' ∷ dom) (omega arith)
    ∙ ap (◌++◌ dst) (take_none (n - 1 - length dst) (b'^' ∷ dom) (omega arith))
    ∙ append-nil dst)

-- A buffer of n bytes with a name that fits becomes the name, the mark and the domain, cut off
-- where the buffer ends.
append_domain_lem :
    (dst : List ℕ) (n : ℕ) (dom : List ℕ)
    → length dst < n
    → append_domain dst n (some dom) ≡ take (n - 1) (dst ++ b'^' ∷ dom)
unfolding append_domain
append_domain_lem dst n dom fits = elim (Bool-cases (leb n (length dst + 1))) [
  | inl full ↦ rw (full, append_domain) (append_domain_full dst n dom (ground arith))
  | inr room ↦
      let has_room : length dst + 1 < n = ground arith in
      let count : length (dst ++ b'^' ∷ []) ≡ length dst + 1 = length-append dst (b'^' ∷ []) in
      rw (room, append_domain)
        (rw (marked_lem dst n has_room, count, cut_lem dst n dom has_room)
          (elim (Bool-cases (leb n (length dst + 1 + 1))) [
            | inl full ↦ rw full (
                ap (λ (l : List ℕ). dst ++ b'^' ∷ l)
                  (sym (take_none (n - length dst - 2) dom (ground arith))))
            | inr more ↦ rw more (
                append_assoc dst (b'^' ∷ []) _
                ∙ ap (λ (j : ℕ). dst ++ b'^' ∷ take j dom) (omega arith))
          ]))
]

-- No buffer that holds a name that fits is written past its end by the domain.
append_domain_fits :
    (dst : List ℕ) (n : ℕ) (dom : Option (List ℕ))
    → length dst < n
    → length (append_domain dst n dom) < n
append_domain_fits dst n none fits = unfold append_domain in fits
append_domain_fits dst n (some dom) fits =
    rw (append_domain_lem dst n dom fits) (omega (arith, length-take (n - 1) (dst ++ b'^' ∷ dom)))
