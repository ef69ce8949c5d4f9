-- ===== src/Errors/Examples.antt =====
-- Chains of causes for server/src/errors.ts.
use mcp_zeromem.Common.{
  ℕ, zero, suc, ap, or_else, ◌≤◌, String, Option, none, some, List, [], ◌≡◌, refl, length, arith,
}
use mcp_zeromem.Common.Text.{join}
use mcp_zeromem.Errors.{includes, parts_from, error_chain_message, http_error, error_detail_message}
use mcp_zeromem.Errors.Chain.{IsFresh, IsMeasure, chain_ends, self_cause_stuck}

abbrev message : ℕ → String
message (suc (suc n)) = "open failed: database is locked"
message (suc zero) = "database is locked"
message zero = "SQLITE_BUSY"

-- Each error is caused by the one before it.
abbrev cause : ℕ → Option ℕ
cause zero = none
cause (suc n) = some n

falls : IsMeasure message cause (λ n. n)
falls zero e' q = absurd (cc)
falls (suc n) e' q = let same : n ≡ e' = ap (λ o. or_else o n) q in omega arith

chain_ends_test :
    (parts : List String) × (parts_from message cause 4 (some 2) [] ≡ some parts)
    × (length parts ≤ 5)
    × IsFresh parts
chain_ends_test = chain_ends message cause (λ n. n) falls 2

self_caused : parts_from message (λ n. some n) 100 (some 1) [] ≡ none
self_caused = self_cause_stuck message (λ n. some n) 1 refl 100

-- The message that the first quotes is left out.
told_once :
    error_chain_message message cause 4 2 ≡ some "open failed: database is locked: SQLITE_BUSY"
unfolding error_chain_message join includes
told_once = refl

detailed :
    error_detail_message (http_error "Failed to connect" (some "exit 1"))
    ≡ "Failed to connect: exit 1"
unfolding error_detail_message
detailed = refl
