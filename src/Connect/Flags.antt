-- ===== src/Connect/Flags.antt =====
-- The flags byte of `connect_build_variable_header`.
use lightmqtt.Prelude.{ℕ, zero, suc, ◌+◌, ◌*◌, ◌≤◌, ◌≡◌, arith, Bool}
use lightmqtt.Prelude.{if◌then◌else◌}
use lightmqtt.Connect.{connect_flags}

abbrev bit : Bool → ℕ → ℕ
bit b n = if b then n else 0

-- For a valid will QoS the byte is the sum of the field's bits: the QoS in bits 3 and 4, and one bit
-- for each flag. So no two fields share a bit, and each can be read back.
pub connect_flags-sum :
    (q : ℕ) (clean retain will user password : Bool)
    → q ≤ 2
    → connect_flags q clean retain will user password
      ≡ 8 * q + bit clean 2 + bit retain 32 + bit will 4 + bit user 128 + bit password 64
unfolding connect_flags
connect_flags-sum zero clean retain will user password h = ground arith
connect_flags-sum (suc zero) clean retain will user password h = ground arith
connect_flags-sum (suc (suc zero)) clean retain will user password h = ground arith
connect_flags-sum (suc (suc (suc q))) clean retain will user password h = absurd (omega arith)
