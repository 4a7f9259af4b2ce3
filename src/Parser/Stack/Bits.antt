-- ===== src/Parser/Stack/Bits.antt =====
-- One byte of the bit-packed stack of parser.c, by evaluation over all bytes.
use embedjson.Base.Bytes.{passes, passes-at}
use embedjson.Base.{ℕ, ◌<◌, ◌≡◌, ◌≢◌, refl, Bool, true, false, ◌||◌, ltb, ◌==◌, ltb→lt, arith}
use embedjson.Parser.Stack.{write_bit, read_bit}
use embedjson.Parser.{Bracket, curly, square}

abbrev same : Bracket → Bracket → Bool
same curly curly = true
same square square = true
same _ _ = false

same→eq : (a b : Bracket) → same a b ≡ true → a ≡ b
same→eq curly b h = ground arith
same→eq square b h = ground arith

self_table :
    (v : Bracket) → passes (λ n. passes (λ x. same (read_bit (write_bit v x n) n) v) 256) 8 ≡ true
unfolding passes read_bit write_bit
self_table curly = refl
self_table square = refl

abbrev keeps : Bracket → ℕ → ℕ → ℕ → Bool
keeps v x n m = n == m || same (read_bit (write_bit v x n) m) (read_bit x m)

other_table : (v : Bracket) → passes (λ n. passes (λ m. passes (λ x. keeps v x n m) 256) 8) 8 ≡ true
unfolding passes read_bit write_bit
other_table curly = refl
other_table square = refl

range_table : (v : Bracket) → passes (λ n. passes (λ x. ltb (write_bit v x n) 256) 256) 8 ≡ true
unfolding passes write_bit
range_table curly = refl
range_table square = refl

pub read_bit-write_bit_self :
    (v : Bracket) (x n : ℕ) → x < 256 → n < 8 → read_bit (write_bit v x n) n ≡ v
read_bit-write_bit_self v x n hx hn =
    same→eq _ _ (passes-at _ 256 x (passes-at _ 8 n (self_table v) hn) hx)

pub write_bit-lt : (v : Bracket) (x n : ℕ) → x < 256 → n < 8 → write_bit v x n < 256
write_bit-lt v x n hx hn = ltb→lt _ _ (passes-at _ 256 x (passes-at _ 8 n (range_table v) hn) hx)

pub read_bit-write_bit_ne :
    (v : Bracket) (x n m : ℕ)
    → x < 256
    → n < 8
    → m < 8
    → n ≢ m
    → read_bit (write_bit v x n) m ≡ read_bit x m
read_bit-write_bit_ne v x n m hx hn hm ne =
    let row = passes-at _ 8 m (passes-at _ 8 n (other_table v) hn) hm in
    let kept = passes-at _ 256 x row hx in same→eq _ _ (ground arith)
