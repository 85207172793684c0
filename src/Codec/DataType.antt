-- ===== src/Codec/DataType.antt =====
-- codec/clove.go: the type codes of Clove data, `CloveDataTypeInt8` and so on.
use clove.Prelude.{ℕ}

abbrev pub int8 : ℕ
int8 = 1

abbrev pub uint8 : ℕ
uint8 = 2

abbrev pub int16 : ℕ
int16 = 3

abbrev pub uint16 : ℕ
uint16 = 4

abbrev pub int32 : ℕ
int32 = 5

abbrev pub uint32 : ℕ
uint32 = 6

abbrev pub int64 : ℕ
int64 = 7

abbrev pub uint64 : ℕ
uint64 = 8

abbrev pub float32 : ℕ
float32 = 9

abbrev pub float64 : ℕ
float64 = 10

abbrev pub nil : ℕ
nil = 11

abbrev pub true_value : ℕ
true_value = 12

abbrev pub false_value : ℕ
false_value = 13

abbrev pub string : ℕ
string = 14

abbrev pub bytes : ℕ
bytes = 15

abbrev pub map : ℕ
map = 16

abbrev pub list : ℕ
list = 17

abbrev pub big_number : ℕ
big_number = 18

abbrev reserved : ℕ
reserved = 19
