-- ===== src/Base/Buffer.antt =====
-- base/buffer.go: `StandardBuffer`, the byte queue between a socket and the parsers. `SyncBuffer`
-- has the same methods under a lock. A buffer is the bytes of its bytes.Buffer that are not read.
use clove.Prelude.{ℕ, List, [], ◌∷◌, ◌++◌, length, take, drop, ltb, if◌then◌else◌, Bool, false}

abbrev pub Buffer : Type 0
Buffer = List ℕ

-- The number of bytes that `Next` and `Peek` hand out.
abbrev pub available : ℕ → Buffer → ℕ
available n b = if ltb (length b) n then length b else n

-- `Next`: the bytes, their number, and the buffer behind them.
unfoldable pub next : ℕ → Buffer → (List ℕ × ℕ) × Buffer
next n b = ((take (available n b) b, available n b), drop (available n b) b)

-- `Peek` leaves the buffer as it is.
unfoldable pub peek : ℕ → Buffer → List ℕ × ℕ
peek n b = (take (available n b) b, available n b)

-- `Write` never fails; bytes.Buffer grows.
unfoldable pub write : List ℕ → Buffer → ℕ × Buffer
write p b = (length p, b ++ p)

-- `Read` into a slice of `n` bytes: the bytes read, whether it reports `io.EOF`, and the buffer.
unfoldable pub read : ℕ → Buffer → (List ℕ × Bool) × Buffer
read n [] = (([], ltb 0 n), [])
read n (x ∷ b) = ((take (available n (x ∷ b)) (x ∷ b), false), drop (available n (x ∷ b)) (x ∷ b))

unfoldable pub reset : Buffer → Buffer
reset b = []

unfoldable pub len : Buffer → ℕ
len b = length b
