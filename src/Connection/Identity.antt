-- ===== src/Connection/Identity.antt =====
-- Connection ids of src/netchan.c: no id is 0, which netchan_peek_id returns for a runt.
use netchan.Base.{ℕ, ◌≢◌, arith}
use netchan.Connection.{nc_random_id}

-- Whatever the operating system answers, an id is not 0.
pub nc_random_id-ne-zero : (entropy now here : ℕ) → nc_random_id entropy now here ≢ 0
unfolding nc_random_id
nc_random_id-ne-zero entropy now here = ground arith
