-- ===== src/Tests/Abi.antt =====
-- libs/tarnos-abi and `Pid`: values that go through registers.
use tarn_os.Prelude.{ℕ, List, [], ◌∷◌, arith}
use tarn_os.Prelude.Bytes.{AllBytes}

abbrev greeting : List ℕ
greeting = 104 ∷ 105 ∷ []

greeting-AllBytes : AllBytes greeting
greeting-AllBytes = (omega arith, (omega arith, tt))
