-- ===== src/Command/Bytes.antt =====
-- The commands' bytes, both ways, and the commands that are neither queries nor destructive.
use argon_utils.Prelude.{ℕ, ◌≡◌, ◌≢◌, ◌↔◌, not, subst, some, arith}
use argon_utils.Command.{Command, as_byte, from_byte, is_query, is_destructive, acknowledge}

pub from_byte-as_byte : (c : Command) → from_byte (as_byte c) ≡ some c
unfolding from_byte as_byte
from_byte-as_byte c = ground arith

as_byte-from_byte : (b : ℕ) (c : Command) → from_byte b ≡ some c → as_byte c ≡ b
unfolding from_byte as_byte
as_byte-from_byte b c e = ground arith

-- `from_byte` reads exactly the bytes of the commands, each as the command whose byte it is.
pub from_byte_iff : (b : ℕ) (c : Command) → (from_byte b ≡ some c) ↔ (as_byte c ≡ b)
from_byte_iff b c =
    (as_byte-from_byte b c, (λ e. subst (λ x. from_byte x ≡ some c) e (from_byte-as_byte c)))

-- A query is never destructive, and the acknowledgement is the only command that is neither.
pub is_query_lem : (c : Command) → c ≢ acknowledge → is_query c ≡ not (is_destructive c)
unfolding is_query is_destructive
is_query_lem c h = ground arith
