-- ===== src/RateLimit/Limit.antt =====
-- services/rate_limit.rs: how many requests of a key are let through.
use agent_workspace_hub.Prelude.{
  ℕ, ◌-◌, ◌≤◌, ◌<◌, ◌≡◌, ◌∙◌, sym, ap, inl, inr, Bool, true, false, not, ◌&&◌, List, [], ◌∷◌, ◌++◌,
  Text, text_eq, text_eq_refl, arith, if◌then◌else◌, leb, length, length-append, length-retain, any,
  retain, Bool-cases, Result, ok, err,
}
use agent_workspace_hub.RateLimit.{
  RateLimiter, is_fresh, with_key, recorded, evict, put, decide, check,
}
use agent_workspace_hub.RateLimit.Window.{
  retain-retain, retain-append, is_fresh-later, Distinct, put-Distinct, recorded-put, evict-Evicted,
}

abbrev pub is_ok {ℓ} : {A : Type ℓ} → Result ℕ A → Bool
is_ok (ok a) = true
is_ok (err e) = false

-- From a time on, the map holds for the key the requests let through that are inside the window,
-- and they are within the limit.
pub record Tracks (key : Text) (rl : RateLimiter) (known : List ℕ) (now : ℕ) : Type 0 where
  pub distinct : Distinct rl.hits
  pub inside :
      (later : ℕ)
      → now ≤ later
      → retain (is_fresh rl.window later) (recorded key rl.hits)
        ≡ retain (is_fresh rl.window later) known
  pub within :
      (later : ℕ) → now ≤ later → length (retain (is_fresh rl.window later) known) ≤ rl.limit

-- The map takes the key: it is not full, or has the key.
abbrev pub HasRoom : RateLimiter → ℕ → Text → Type 0
HasRoom rl now key =
    (leb rl.max_keys (length (evict rl now key)) && not (any (with_key key) (evict rl now key)))
    ≡ false

-- The three ways out of `check`.
pub data Checked (rl : RateLimiter) (now : ℕ) (key : Text) : RateLimiter × Result ℕ ℕ → Type 0 where
  saturated : (retry : ℕ) → Checked rl now key (record rl { hits = evict rl now key }, err retry)
  limited :
      HasRoom rl now key
      → (retry : ℕ)
      → Checked rl now key (
        record rl {
          hits =
              put key
                (retain (is_fresh rl.window now) (recorded key (evict rl now key)))
                (evict rl now key);
        },
        err retry,
      )
  passed :
      HasRoom rl now key
      → length (retain (is_fresh rl.window now) (recorded key (evict rl now key))) < rl.limit
      → Checked rl now key (
        record rl {
          hits =
              put key
                (retain (is_fresh rl.window now) (recorded key (evict rl now key)) ++ now ∷ [])
                (evict rl now key);
        },
        ok (
            rl.limit
            - length
                (retain (is_fresh rl.window now) (recorded key (evict rl now key)) ++ now ∷ [])),
      )

pub check-Checked :
    (rl : RateLimiter) (now : ℕ) (key : Text) → Checked rl now key (check now key rl)
unfolding check decide
check-Checked rl now key =
    elim (Bool-cases (
      leb rl.max_keys (length (evict rl now key)) && not (any (with_key key) (evict rl now key)))) [
        | inl full ↦ rw full (saturated _)
        | inr room ↦
            elim (Bool-cases (
              leb rl.limit
                (length (retain (is_fresh rl.window now) (recorded key (evict rl now key)))))) [
                  | inl over ↦ rw (room, over) (limited room _)
                  | inr under ↦ rw (room, under) (passed room (ground arith))
                ]
      ]

module _ (rl : RateLimiter) (key : Text) (known : List ℕ) (last now : ℕ) (order : last ≤ now)
    (t : Tracks key rl known last) where
  -- What the map holds inside the window once the eviction is done.
  evicted_inside :
      (later : ℕ)
      → now ≤ later
      → (q : Text)
      → retain (is_fresh rl.window later) (recorded key (evict rl now q))
        ≡ retain (is_fresh rl.window later) known
  evicted_inside later m q =
      (evict-Evicted rl now q t.distinct).inside key later m ∙ t.inside later (omega arith)

  entry_inside :
      (later : ℕ)
      → now ≤ later
      → retain
          (is_fresh rl.window later)
          (retain (is_fresh rl.window now) (recorded key (evict rl now key)))
        ≡ retain (is_fresh rl.window later) known
  entry_inside later m =
      retain-retain (is_fresh rl.window later) (is_fresh rl.window now) _
        (is_fresh-later rl.window now later m)
      ∙ evicted_inside later m key

  known_shrinks :
      (later : ℕ)
      → now ≤ later
      → length (retain (is_fresh rl.window later) known)
        ≤ length (retain (is_fresh rl.window now) (recorded key (evict rl now key)))
  known_shrinks later m = omega (
    arith,
    ap length (entry_inside later m),
    length-retain (is_fresh rl.window later)
        (retain (is_fresh rl.window now) (recorded key (evict rl now key))),
  )

  pub own-Tracks :
      (out : RateLimiter × Result ℕ ℕ)
      → Checked rl now key out
      → Tracks key out.0 (if is_ok out.1 then known ++ now ∷ [] else known) now
  own-Tracks _ (saturated retry) = record {
    distinct = (evict-Evicted rl now key t.distinct).distinct;
    inside = λ later m. evicted_inside later m key;
    within = λ later m. t.within later (omega arith);
  }
  own-Tracks _ (limited slot retry) = record {
    distinct = put-Distinct key _ _ (evict-Evicted rl now key t.distinct).distinct;
    inside = λ later m.
        rw (recorded-put key key _ (evict rl now key), text_eq_refl key) (entry_inside later m);
    within = λ later m. t.within later (omega arith);
  }
  own-Tracks _ (passed slot room) = record {
    distinct = put-Distinct key _ _ (evict-Evicted rl now key t.distinct).distinct;
    inside = λ later m.
        rw (recorded-put key key _ (evict rl now key), text_eq_refl key)
          (retain-append (is_fresh rl.window later) _ (now ∷ [])
            ∙ ap (λ ts. ts ++ retain (is_fresh rl.window later) (now ∷ [])) (entry_inside later m)
            ∙ sym (retain-append (is_fresh rl.window later) known (now ∷ [])));
    within = λ later m. omega (
      arith,
      ap length (retain-append (is_fresh rl.window later) known (now ∷ [])),
      length-append (retain (is_fresh rl.window later) known)
          (retain (is_fresh rl.window later) (now ∷ [])),
      length-retain (is_fresh rl.window later) (now ∷ []),
      known_shrinks later m,
      room,
    );
  }

  pub other-Tracks :
      (q : Text) (out : RateLimiter × Result ℕ ℕ)
      → text_eq q key ≡ false
      → Checked rl now q out
      → Tracks key out.0 known now
  other-Tracks q _ apart (saturated retry) = record {
    distinct = (evict-Evicted rl now q t.distinct).distinct;
    inside = λ later m. evicted_inside later m q;
    within = λ later m. t.within later (omega arith);
  }
  other-Tracks q _ apart (limited slot retry) = record {
    distinct = put-Distinct q _ _ (evict-Evicted rl now q t.distinct).distinct;
    inside =
        λ later m. rw (recorded-put q key _ (evict rl now q), apart) (evicted_inside later m q);
    within = λ later m. t.within later (omega arith);
  }
  other-Tracks q _ apart (passed slot room) = record {
    distinct = put-Distinct q _ _ (evict-Evicted rl now q t.distinct).distinct;
    inside =
        λ later m. rw (recorded-put q key _ (evict rl now q), apart) (evicted_inside later m q);
    within = λ later m. t.within later (omega arith);
  }
