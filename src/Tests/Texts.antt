-- ===== src/Tests/Texts.antt =====
-- Records and slices of short strings, and a bucket with strings as keys and values.
use turbo_hash.Common.{ℕ, ◌≡◌, ◌↔◌, true, List, [], ◌∷◌, arith}
use mathlib.Core.Option
use turbo_hash.Bytes.{Memory}
use turbo_hash.Record.{num, str, encode2}
use turbo_hash.Record.Layout.{Stores2}
use turbo_hash.Record.RoundTrip.{encode2-Stores2}
use turbo_hash.Slice.{negative, null, positive, compare, equal}
use turbo_hash.Slice.Order.{Before, compare_lem}
use turbo_hash.Bucket.{Bucket, new_bucket, new_target, insert_at}
use turbo_hash.Format.Text.{string_string}
use turbo_hash.SlotFormat.{SlotFormat}
use turbo_hash.Hasher.{murmur_hash64_a}

abbrev garbage : Memory
garbage i = 0xA5

abbrev hello : List ℕ
hello = b'h' ∷ b'i' ∷ []

abbrev name : List ℕ
name = b'h' ∷ b'o' ∷ b'!' ∷ []

encode2-Stores2_example :
    Stores2 (str hello) (num 8 513) 40 garbage (encode2 (str hello) (num 8 513) 40 garbage)
encode2-Stores2_example = encode2-Stores2 (str hello) (num 8 513) 40 garbage (omega arith)

compare_lem_example :
    ((compare hello name ≡ negative) ↔ Before hello name)
    × ((compare hello name ≡ null) ↔ (hello ≡ name))
    × ((compare hello name ≡ positive) ↔ Before name hello)
    × ((equal hello name ≡ true) ↔ (hello ≡ name))
compare_lem_example = compare_lem hello name

abbrev strings : SlotFormat (List ℕ) (List ℕ) (List ℕ)
strings = string_string garbage

abbrev no_strings : Bucket (List ℕ)
no_strings = new_bucket [] 1

abbrev with_hello : Bucket (List ℕ) × List (List ℕ)
with_hello = insert_at strings no_strings (murmur_hash64_a hello) hello name (new_target (0, 1))
