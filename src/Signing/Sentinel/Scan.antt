-- ===== src/Signing/Sentinel/Scan.antt =====
-- When a scan reports a form, and when it reports nothing.
use blockchain_ai_tools.Base.{
  ℕ, suc, Bytes, same, same_iff, is_empty_iff, not_empty, cut_prefix, cut_prefix-append,
  append_of_cut_prefix, Bool, true, false, Bool-cases, Option-cases, List, [], ◌∷◌, ◌++◌,
  append-nil, All, All-append, none, some, ◌≡◌, ◌≢◌, ◌↔◌, inl, inr, refl, sym, ap, ◌∙◌, subst,
  arith,
}
use blockchain_ai_tools.Signing.Sentinel.{
  Sentinel, is_registered, register_form, register_all, contains, tail, scan_from,
}

-- A text stands somewhere in an output.
pub record Occurs (form output : Bytes) : Type 0 where
  pub before : Bytes
  pub after : Bytes
  pub split : output ≡ before ++ (form ++ after)

contains-Occurs : (output form : Bytes) → contains output form ≡ true → Occurs form output
unfolding contains
contains-Occurs [] form h = record {
  before = [];
  after = [];
  split = sym (append-nil form ∙ (is_empty_iff form).0 h);
}
contains-Occurs (c ∷ output) form h = elim (Option-cases (cut_prefix (c ∷ output) form)) [
  | inr (after, e) ↦ record {
    before = [];
    after = after;
    split = append_of_cut_prefix (c ∷ output) form after e;
  }
  | inl e ↦
      let o = contains-Occurs output form (ground arith) in
      record { before = c ∷ o.before; after = o.after; split = ap (λ x. c ∷ x) o.split }
]

contains_prefix :
    (output form rest : Bytes) → cut_prefix output form ≡ some rest → contains output form ≡ true
unfolding contains cut_prefix
contains_prefix [] [] rest h = refl
contains_prefix [] (c ∷ form) rest h = absurd (cc)
contains_prefix (c ∷ output) form rest h =
    ap (λ x. elim x as (λ _. Bool) [ some _ ↦ true | none ↦ contains output form ]) h

contains_later :
    (c : ℕ) (output form : Bytes) → contains output form ≡ true → contains (c ∷ output) form ≡ true
unfolding contains
contains_later c output form h = elim (Option-cases (cut_prefix (c ∷ output) form)) [
  | inr (rest, e) ↦ contains_prefix (c ∷ output) form rest e
  | inl e ↦ ap (λ x. elim x as (λ _. Bool) [ some _ ↦ true | none ↦ contains output form ]) e ∙ h
]

contains_split : (before form after : Bytes) → contains (before ++ (form ++ after)) form ≡ true
contains_split [] form after =
    contains_prefix (form ++ after) form after (cut_prefix-append form after)
contains_split (c ∷ before) form after =
    contains_later c (before ++ (form ++ after)) form (contains_split before form after)

contains_iff : (output form : Bytes) → (contains output form ≡ true) ↔ Occurs form output
contains_iff output form = (
  contains-Occurs output form,
  λ o. ap (λ x. contains x form) o.split ∙ contains_split o.before form o.after,
)

pub contains-false : (output form : Bytes) → (contains output form ≡ false) ↔ ¬ (Occurs form output)
contains-false output form = (
  λ h o. absurd (cc (h, (contains_iff output form).1 o)),
  λ n. elim (Bool-cases (contains output form)) [
    | inr e ↦ e
    | inl e ↦ absurd (n ((contains_iff output form).0 e))
  ],
)

All-append_left {ℓ κ} :
    {A : Type ℓ} (P : A → Type κ) (xs ys : List A) → All P (xs ++ ys) → All P xs × All P ys
All-append_left P [] ys h = (tt, h)
All-append_left P (x ∷ xs) ys (px, h) = let (hx, hy) = All-append_left P xs ys h in ((px, hx), hy)

abbrev added : Bytes → Bytes → Sentinel → Sentinel
added name b s = record s { forms = s.forms ++ b ∷ []; names = s.names ++ name ∷ [] }

register_known :
    (name b : Bytes) (s : Sentinel) → is_registered b s.forms ≡ true → register_form name b s ≡ s
unfolding register_form
register_known name b s e = ground arith

register_new :
    (name b : Bytes) (s : Sentinel)
    → b ≢ []
    → is_registered b s.forms ≡ false
    → register_form name b s ≡ added name b s
unfolding register_form
register_new name b s full e = let f = not_empty b full in ground arith

module _ (output : Bytes) where
  -- A form that does not occur, as the code tests it.
  abbrev pub Silent : Bytes → Type 0
  Silent form = contains output form ≡ false

  registered-Silent :
      (b : Bytes) (forms : List Bytes) → is_registered b forms ≡ true → All Silent forms → Silent b
  unfolding is_registered
  registered-Silent b [] h all = absurd (cc)
  registered-Silent b (form ∷ forms) h (quiet, all) = elim (Bool-cases (same form b)) [
    | inl e ↦ ap (contains output) (sym ((same_iff form b).0 e)) ∙ quiet
    | inr e ↦ registered-Silent b forms (ground arith) all
  ]

  register-Silent :
      (name b : Bytes) (s : Sentinel)
      → b ≢ []
      → All Silent (register_form name b s).forms ↔ (All Silent s.forms × Silent b)
  register-Silent name b s full = elim (Bool-cases (is_registered b s.forms)) [
    | inl e ↦
        subst (λ t. All Silent t.forms ↔ (All Silent s.forms × Silent b))
          (sym (register_known name b s e))
          (λ all. (all, registered-Silent b s.forms e all), λ both. both.0)
    | inr e ↦
        subst (λ t. All Silent t.forms ↔ (All Silent s.forms × Silent b))
          (sym (register_new name b s full e))
          (
            λ all. let (old, (new, _)) = All-append_left Silent s.forms (b ∷ []) all in (old, new),
            λ both. All-append Silent s.forms (b ∷ []) both.0 (both.1, tt),
          )
  ]

  pub register_all-Silent :
      (fs : List (Bytes × Bytes)) (s : Sentinel)
      → All (λ f. f.1 ≢ []) fs
      → All Silent (register_all fs s).forms ↔ (All Silent s.forms × All (λ f. Silent f.1) fs)
  unfolding register_all
  register_all-Silent [] s full = (λ all. (all, tt), λ both. both.0)
  register_all-Silent ((name, b) ∷ fs) s (some_text, full) =
      let rest = register_all-Silent fs (register_form name b s) full in
      let first = register-Silent name b s some_text in
      (
        λ all.
            let (old, more) = rest.0 all in
            let (all_old, new) = first.0 old in (all_old, (new, more)),
        λ both. rest.1 (first.1 (both.0, both.1.0), both.1.1),
      )

  pub scan_from-Silent :
      (forms names : List Bytes) (i : ℕ) → (scan_from output i forms names ≡ []) ↔ All Silent forms
  unfolding scan_from
  scan_from-Silent [] names i = (λ _. tt, λ _. refl)
  scan_from-Silent (form ∷ forms) names i =
      let rest = scan_from-Silent forms (tail names) (suc i) in
      elim (Bool-cases (contains output form)) [
        | inl e ↦ (λ h. absurd (ground arith), λ all. absurd (cc (e, all.0)))
        | inr e ↦
            (λ h. (e, rest.0 (ground arith)), λ all. let nothing = rest.1 all.1 in ground arith)
      ]

  -- The names that a scan gives, where the registered forms have a property.
  module _ (Known : Bytes × Bytes → Type 0) where
    -- Forms and names in step.
    pub data Paired : List Bytes → List Bytes → Type 0 where
      no_form : Paired [] []
      one_form :
          {form name : Bytes} {forms names : List Bytes}
          → Known (name, form)
          → Paired forms names
          → Paired (form ∷ forms) (name ∷ names)

    Paired-append :
        (forms names : List Bytes) (name b : Bytes)
        → Known (name, b)
        → Paired forms names
        → Paired (forms ++ b ∷ []) (names ++ name ∷ [])
    Paired-append forms names name b k no_form = one_form k no_form
    Paired-append (_ ∷ forms) (_ ∷ names) name b k (one_form h p) =
        one_form h (Paired-append forms names name b k p)

    register-Paired :
        (name b : Bytes) (s : Sentinel)
        → b ≢ []
        → Known (name, b)
        → Paired s.forms s.names
        → Paired (register_form name b s).forms (register_form name b s).names
    register-Paired name b s full k p = elim (Bool-cases (is_registered b s.forms)) [
      | inl e ↦ subst (λ t. Paired t.forms t.names) (sym (register_known name b s e)) p
      | inr e ↦
          subst (λ t. Paired t.forms t.names) (sym (register_new name b s full e))
            (Paired-append s.forms s.names name b k p)
    ]

    pub register_all-Paired :
        (fs : List (Bytes × Bytes)) (s : Sentinel)
        → All (λ f. f.1 ≢ []) fs
        → All Known fs
        → Paired s.forms s.names
        → Paired (register_all fs s).forms (register_all fs s).names
    unfolding register_all
    register_all-Paired [] s full known p = p
    register_all-Paired ((name, b) ∷ fs) s (some_text, full) (k, known) p =
        register_all-Paired fs (register_form name b s) full known
          (register-Paired name b s some_text k p)

    -- A name of a form that occurs.
    abbrev pub Found : Bytes → Type 0
    Found name = (form : Bytes) × Known (name, form) × Occurs form output

    pub scan_from-Found :
        (forms names : List Bytes) (i : ℕ)
        → Paired forms names
        → All Found (scan_from output i forms names)
    unfolding scan_from
    scan_from-Found forms names i no_form = tt
    scan_from-Found (form ∷ forms) (name ∷ names) i (one_form k p) =
        let rest = scan_from-Found forms names (suc i) p in
        elim (Bool-cases (contains output form)) [
          | inl e ↦ rw e ((form, k, (contains_iff output form).0 e), rest)
          | inr e ↦ rw e rest
        ]
