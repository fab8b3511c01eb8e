-- ===== src/Resolver/Throttle/Laws.antt =====
-- The bounds that the throttles keep.
use native.Mathlib.Nat.{add-mul}
use mt_shards_back_test.Base.{
  sym, ap, ◌∙◌, ℕ, zero, suc, ◌/◌, ◌+◌, ◌-◌, ◌*◌, ◌≤◌, ◌≡◌, Bool, true, false, List, [], ◌∷◌, arith,
}
use mt_shards_back_test.Resolver.Throttle.{
  Bucket, bucket_allow, Throttle, Limits, allow, incr, min, answers,
}

abbrev pub one_if : Bool → ℕ
one_if true = 1
one_if false = 0

-- The calls let through by a bucket at the times of a list, and the bucket after them.
abbrev pub counted : Bool → ℕ × Bucket → ℕ × Bucket
counted b (n, bucket) = (one_if b + n, bucket)

unfoldable pub bucket_run : ℕ → List ℕ → Bucket → ℕ × Bucket
bucket_run rate [] b = (0, b)
bucket_run rate (now ∷ times) b =
    let r = bucket_allow rate now b in counted r.0 (bucket_run rate times r.1)

-- One call: what it lets through it takes from the tokens, which grow by the rate at most.
bucket_step :
    (rate now : ℕ) (b : Bucket)
    → b.ts ≤ now
    → (1000 * one_if (bucket_allow rate now b).0 + (bucket_allow rate now b).1.tokens
        ≤ b.tokens + (now - b.ts) * rate)
      × ((bucket_allow rate now b).1.ts ≡ now)
unfolding bucket_allow
bucket_step rate now b h = ground arith

abbrev pub Ordered : ℕ → List ℕ → Type 0
Ordered t [] = Unit {0}
Ordered t (now ∷ times) = (t ≤ now) × Ordered now times

abbrev pub last : ℕ → List ℕ → ℕ
last t [] = t
last t (now ∷ times) = last now times

last_le : (t : ℕ) (times : List ℕ) → Ordered t times → t ≤ last t times
last_le t [] o = omega arith
last_le t (now ∷ times) (h, o) = omega (arith, last_le now times o)

-- `n` calls of the cap within one second, and what they let through.
abbrev pub plus : Bool → ℕ × Throttle → ℕ × Throttle
plus b (n, t) = (one_if b + n, t)

unfoldable pub allow_run : Limits → ℕ → Throttle → ℕ × Throttle
allow_run limits zero t = (0, t)
allow_run limits (suc n) t = let r = allow limits answers t in plus r.0 (allow_run limits n r.1)

-- Of `n` calls of the fill cap within one second, while Redis answers, exactly as many pass as the
-- limit has left over what the second's counter showed before, and no more than `n`.
pub allow_run_lem :
    (limits : Limits) (n : ℕ) (t : Throttle)
    → (allow_run limits n t).0 ≡ min n (limits.limit - t.probes (t.clock / 1000))
unfolding allow_run allow incr
allow_run_lem limits zero t = ground arith
allow_run_lem limits (suc n) t = ground (arith, allow_run_lem limits n (allow limits answers t).1)

span : (a b c r : ℕ) → a ≤ b → b ≤ c → (b - a) * r + (c - b) * r ≡ (c - a) * r
span a b c r h k = sym (add-mul (b - a) (c - b) r) ∙ ap (λ x. x * r) (omega arith)

-- While the times do not go backwards, the calls that a local bucket lets through cost at most the
-- tokens that it had and those that the rate adds from its last time to the last call, one
-- thousand thousandths each.
pub bucket_run_lem :
    (rate : ℕ) (times : List ℕ) (b : Bucket)
    → Ordered b.ts times
    → 1000 * (bucket_run rate times b).0 + (bucket_run rate times b).1.tokens
      ≤ b.tokens + (last b.ts times - b.ts) * rate
unfolding bucket_run
bucket_run_lem rate [] b o = omega arith
bucket_run_lem rate (now ∷ times) b (h, o) =
    let b' = (bucket_allow rate now b).1 in
    let (spent, at) = bucket_step rate now b h in
    let rest = bucket_run_lem rate times b' (rw at o) in
    let rest' = rw at at rest in
    let later = last_le now times o in
    let whole = span b.ts now (last now times) rate h later in omega (arith, spent, rest', whole)
