-- ===== src/Pusher/Flush.antt =====
-- pushers/pusher.go: what `flush` hands back when its push fails.
use edgedelta_lambda_extensi.Common.{
  ℕ, ◌+◌, ◌≡◌, refl, Option, none, some, [], ◌∷◌, ℤ, pos, negsuc, quot_ℤ, ltb_ℤ, length, drop, ◌==◌,
  if◌then◌else◌,
}
use edgedelta_lambda_extensi.Text.Bytes.{Bytes, codes}
use edgedelta_lambda_extensi.Text.Records.{sep}

-- The loop `for i := start; i < len(payload); i++`: `rest` is `payload[i:]`, and the result is `start`
-- behind the loop.
unfoldable pub find_start : ℕ → ℕ → Bytes → ℕ
find_start start i [] = start
find_start start i (c ∷ rest) =
    let later = find_start start (i + 1) rest in if c == sep then i + 1 else later

-- `payload[start:]` behind the loop.
unfoldable pub drop_oldest : ℕ → Bytes → ℕ
unfolding find_start
drop_oldest start payload = find_start start start (drop start payload)

-- The loop from an index that may be negative: `none` is the panic of `payload[i]`.
unfoldable pub cut_at : ℤ → Bytes → Option ℕ
unfolding drop_oldest
cut_at (pos start) payload = some (drop_oldest start payload)
cut_at (negsuc _) payload = none

-- How many bytes a failed flush drops of its payload, or the panic.
unfoldable pub dropped_bytes : ℤ → Bytes → Option ℕ
dropped_bytes buffer_size payload =
    if ltb_ℤ buffer_size (pos (length payload))
    then cut_at (quot_ℤ buffer_size 10) payload
    else some 0

drop_test : dropped_bytes (pos 20) (codes "aaaa\nbbbb\ncccc\ndddd\neeee\n") ≡ some 5
unfolding dropped_bytes cut_at quot_ℤ
drop_test = refl
