-- ===== src/RateLimit/Window.antt =====
-- services/rate_limit.rs: the times inside a window, and the keys of the map.
use agent_workspace_hub.Prelude.{
  ℕ, ◌≤◌, ◌≡◌, ◌∙◌, sym, ap, inl, inr, refl, Bool, true, false, not, ◌&&◌, none, some, List, [],
  ◌∷◌, ◌++◌, Text, text_eq, text_eq_iff, text_eq_refl, arith, if◌then◌else◌, leb, length, all, find,
  retain, Bool-cases, Option-cases, find-holds, find-put_key, find-remove_key, find-retain_absent,
  find-retain-none, find-push_other, length-retain,
}
use agent_workspace_hub.RateLimit.{
  Entry, RateLimiter, is_fresh, with_key, times_of, recorded, is_stale, evict, put,
}

module _ {ℓ} {A : Type ℓ} where
  -- Of two filters, the weaker one changes nothing behind the stronger one.
  pub retain-retain :
      (p q : A → Bool) (xs : List A)
      → ((x : A) → p x ≡ true → q x ≡ true)
      → retain p (retain q xs) ≡ retain p xs
  unfolding retain
  retain-retain p q [] h = refl
  retain-retain p q (x ∷ xs) h = ground (arith, h x, retain-retain p q xs h)

  pub retain-append :
      (p : A → Bool) (xs ys : List A) → retain p (xs ++ ys) ≡ retain p xs ++ retain p ys
  unfolding retain
  retain-append p [] ys = refl
  retain-append p (x ∷ xs) ys = ground (arith, retain-append p xs ys)

  -- What nothing passes is empty.
  pub retain-all-not :
      (p q : A → Bool) (xs : List A)
      → all (λ x. not (q x)) xs ≡ true
      → ((x : A) → p x ≡ true → q x ≡ true)
      → retain p xs ≡ []
  unfolding retain all
  retain-all-not p q [] h sub = refl
  retain-all-not p q (x ∷ xs) h sub =
      ground (arith, sub x, retain-all-not p q xs (ground arith) sub)

  find-none-holds :
      (p q : A → Bool) (xs : List A) {x : A} → find q xs ≡ none → find p xs ≡ some x → q x ≡ false
  unfolding find
  find-none-holds p q [] h g = absurd (ground arith)
  find-none-holds p q (z ∷ xs) {x} h g = elim (Bool-cases (p z)) [
    | inl e ↦ ground arith
    | inr e ↦ find-none-holds p q xs (ground arith) (ground arith)
  ]

-- Inside a later window only what is inside an earlier one.
pub is_fresh-later :
    (window now later : ℕ)
    → now ≤ later
    → (t : ℕ) → is_fresh window later t ≡ true
    → is_fresh window now t ≡ true
unfolding is_fresh
is_fresh-later window now later h t f = ground arith

apart : (a b : Text) → text_eq a b ≡ false → text_eq b a ≡ false
apart a b h = ground (arith, text_eq_iff a b, text_eq_iff b a)

-- No key has two entries.
abbrev pub Distinct : List Entry → Type 0
Distinct [] = Unit
Distinct (e ∷ es) = (find (with_key e.key) es ≡ none) × Distinct es

pub Distinct-retain : (p : Entry → Bool) (es : List Entry) → Distinct es → Distinct (retain p es)
unfolding retain
Distinct-retain p [] d = tt
Distinct-retain p (e ∷ es) d = elim (Bool-cases (p e)) [
  | inl h ↦ rw h (find-retain_absent p (with_key e.key) es d.0, Distinct-retain p es d.1)
  | inr h ↦ rw h (Distinct-retain p es d.1)
]

Distinct-push :
    (e : Entry) (es : List Entry)
    → find (with_key e.key) es ≡ none
    → Distinct es
    → Distinct (es ++ e ∷ [])
unfolding find
Distinct-push e [] h d = (refl, tt)
Distinct-push e (x ∷ es) h d = (
  find-push_other (with_key x.key) e es (apart x.key e.key (ground arith)) ∙ d.0,
  Distinct-push e es (ground arith) d.1,
)

-- An entry that is found is the one that its key finds.
pub find-Distinct :
    (p : Entry → Bool) (es : List Entry) {e : Entry}
    → Distinct es
    → find p es ≡ some e
    → find (with_key e.key) es ≡ some e
unfolding find
find-Distinct p [] d h = absurd (ground arith)
find-Distinct p (x ∷ es) {e} d h = elim (Bool-cases (p x)) [
  | inl g ↦ ground (arith, text_eq_refl e.key)
  | inr g ↦
      let found : find (with_key e.key) es ≡ some e =
        find-Distinct p es {e = e} d.1 (ground arith) in
      let other =
        apart e.key x.key (find-none-holds p (with_key x.key) es {x = e} d.0 (ground arith)) in
      ground arith
]

pub put-Distinct :
    (key : Text) (times : List ℕ) (hits : List Entry)
    → Distinct hits
    → Distinct (put key times hits)
unfolding put
put-Distinct key times hits d =
    Distinct-push (record { key = key; times = times }) _
      (find-retain-none _ _ hits (λ x m. rw m refl)) (Distinct-retain _ hits d)

pub recorded-put :
    (key other : Text) (times : List ℕ) (hits : List Entry)
    → recorded other (put key times hits)
      ≡ (if text_eq key other then times else recorded other hits)
unfolding recorded put
recorded-put key other times hits =
    ap times_of (find-put_key (λ x. x.key) (record { key = key; times = times }) other hits)
    ∙ split (text_eq key other)
  where
    split :
        (b : Bool)
        → times_of
            (if b then some (record { key = key; times = times }) else find (with_key other) hits)
          ≡ (if b then times else times_of (find (with_key other) hits))
    split true = refl
    split false = refl

-- What an eviction leaves: every key has what it had inside the window, from now on, and the key
-- of the request has all that it had.
pub record Evicted (rl : RateLimiter) (now : ℕ) (key : Text) (hits : List Entry) : Type 0 where
  pub distinct : Distinct hits
  pub shorter : length hits ≤ length rl.hits
  pub own : recorded key hits ≡ recorded key rl.hits
  pub inside :
      (other : Text) (later : ℕ)
      → now ≤ later
      → retain (is_fresh rl.window later) (recorded other hits)
        ≡ retain (is_fresh rl.window later) (recorded other rl.hits)

removed-Evicted :
    (rl : RateLimiter) (now : ℕ) (key : Text) (e : Entry)
    → Distinct rl.hits
    → find (is_stale rl.window now key) rl.hits ≡ some e
    → Evicted rl now key (retain (λ x. not (with_key e.key x)) rl.hits)
unfolding is_stale recorded
removed-Evicted rl now key e d h =
    let holds = find-holds (is_stale rl.window now key) rl.hits h in
    let here = find-Distinct (is_stale rl.window now key) rl.hits d h in
    record {
      distinct = Distinct-retain _ rl.hits d;
      shorter = length-retain _ rl.hits;
      own = ap times_of {y = find (with_key key) rl.hits} (
          find-remove_key (λ x. x.key) e.key key rl.hits
          ∙ rw (left (text_eq e.key key) _ holds) refl);
      inside = λ other later m. elim (Bool-cases (text_eq e.key other)) [
        | inl g ↦
            let same = (text_eq_iff e.key other).0 g in
            rw (find-remove_key (λ x. x.key) e.key other rl.hits, g, ← same, here)
              (retain-nil (is_fresh rl.window later)
                ∙ sym (
                    retain-all-not (is_fresh rl.window later) (is_fresh rl.window now) e.times
                      (right (text_eq e.key key) _ holds) (is_fresh-later rl.window now later m)))
        | inr g ↦ rw (find-remove_key (λ x. x.key) e.key other rl.hits, g) refl
      ];
    }
  where
    left : (b c : Bool) → (not b && c) ≡ true → b ≡ false
    left b c g = ground arith

    right : (b c : Bool) → (not b && c) ≡ true → c ≡ true
    right b c g = ground arith

    retain-nil : (p : ℕ → Bool) → retain p [] ≡ []
    retain-nil p = unfold retain in refl

pub evict-Evicted :
    (rl : RateLimiter) (now : ℕ) (key : Text)
    → Distinct rl.hits
    → Evicted rl now key (evict rl now key)
unfolding evict
evict-Evicted rl now key d = elim (Bool-cases (leb rl.max_keys (length rl.hits))) [
  | inr f ↦ rw f same
  | inl f ↦ elim (Option-cases (find (is_stale rl.window now key) rl.hits)) [
    | inl g ↦ rw (f, g) same
    | inr (e, g) ↦ rw (f, g) (removed-Evicted rl now key e d g)
  ]
]
  where
    same : Evicted rl now key rl.hits
    same = record {
      distinct = d;
      shorter = omega arith;
      own = refl;
      inside = λ other later m. refl;
    }
