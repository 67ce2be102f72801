-- ===== src/Environ/Template.antt =====
-- freastal/src/wsgi.c, environ_template_new(): what the padding leaves.
use freastal.Prelude.{
  ℕ, zero, suc, ◌+◌, ◌≡◌, refl, ap, ◌∙◌, inl, inr, ◌&&◌, Option, none, some, Bytes, Bool-cases,
  length, if_cases, option_cases, ltb, ◌==◌, if◌then◌else◌,
}
use freastal.Environ.{
  Config, template_entries, environ_template_max_pad, pad_name, pad_loop, environ_template_new,
  Sizes, environ_template_build,
}
use freastal.Environ.Dict.{Environ, py_none, lookup, set_item, del_item-set_item}

-- No entry of the template starts as a padding key does.
lookup-pad_name :
    (cfg : Config) (url_scheme : Bytes) (i : ℕ)
    → lookup (pad_name i) (template_entries cfg url_scheme) ≡ none
unfolding lookup pad_name template_entries set_item
lookup-pad_name cfg u i = elim (Bool-cases cfg.has_stderr) [ inl e ↦ rw e refl | inr e ↦ rw e refl ]

pad_loop-same :
    (sizes : ℕ → Option ℕ) (base n i : ℕ) (t : Environ)
    → ((j : ℕ) → lookup (pad_name j) t ≡ none)
    → pad_loop sizes base n i t ≡ t
unfolding pad_loop
pad_loop-same sizes base zero i t h = refl
pad_loop-same sizes base (suc n) i t h =
    let same = del_item-set_item (pad_name i) py_none t (h i) in
    ap
      (λ t'.
        let more = pad_loop sizes base n (i + 1) t' in
        elim (sizes i) [ none ↦ t' | some now ↦ if ltb base now then t' else more ])
      same
    ∙ option_cases (λ r. r ≡ t) (sizes i) (λ e. refl)
        (λ now e.
          if_cases (λ r. r ≡ t) (ltb base now) (λ l. refl)
            (λ l. pad_loop-same sizes base n (i + 1) t h))

environ_template_new_lem :
    (cfg : Config) (url_scheme : Bytes) (base : Option ℕ) (sizes : ℕ → Option ℕ)
    → environ_template_new cfg url_scheme base sizes ≡ template_entries cfg url_scheme
unfolding environ_template_new
environ_template_new_lem cfg u none sizes = refl
environ_template_new_lem cfg u (some base) sizes =
    let t = template_entries cfg u in
    let same = pad_loop-same sizes base environ_template_max_pad 0 t (lookup-pad_name cfg u) in
    if_cases (λ r. r ≡ t) (length (pad_loop sizes base environ_template_max_pad 0 t) == length t)
      (λ e. same) λ e. refl

pub environ_template_build_lem :
    (cfg : Config) (url_scheme : Bytes) (sizes : Option Sizes)
    → environ_template_build cfg url_scheme sizes ≡ template_entries cfg url_scheme
unfolding environ_template_build
environ_template_build_lem cfg u none = environ_template_new_lem cfg u none _
environ_template_build_lem cfg u (some z) =
    let t = template_entries cfg u in
    let padded = environ_template_new_lem cfg u z.base z.rounds in
    option_cases (λ r. r ≡ t) z.template (λ e. padded)
      (λ a e.
        option_cases (λ r. r ≡ t) z.copy (λ f. padded)
          (λ b f.
            if_cases (λ r. r ≡ t) (ltb 0 a && (ltb 0 b && ltb b a))
              (λ l. environ_template_new_lem cfg u none z.rounds) (λ l. padded)))
