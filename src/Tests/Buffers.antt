-- ===== src/Tests/Buffers.antt =====
-- class Buffer on small blocks.
use expert_spoon.Prelude.{◌≡◌, refl, [], ◌∷◌, ◌++◌, arith, length, take}
use expert_spoon.Buffer.{Buffer, contents, append_record, nice, reserve, reserve_rounds}
use expert_spoon.Buffer.Window.{IsValid}
use expert_spoon.Buffer.Reserve.{Reserves, reserve-Reserves}
use expert_spoon.Buffer.Append.{AppendsRecord, append_record-Appends}
use expert_spoon.Buffer.ReadRecord.{read_record, record_read, read_record-record_of}
use expert_spoon.Prelude.Decimal.{decimal, atoi}
use expert_spoon.Framing.{record_of}
use expert_spoon.Tests.Heap.{heap}

-- Eight bytes, the window on the last two.
abbrev late : Buffer
late = record {
  memory = 1 ∷ 2 ∷ 3 ∷ 4 ∷ 5 ∷ 6 ∷ 7 ∷ 8 ∷ [];
  data_ = 6;
  size_ = 2;
  total_ = 8;
  origin_total = 8;
}

late-IsValid : IsValid late
late-IsValid = record { fits = omega arith; allocated = refl; small = omega arith }

nice_runs : nice late ≡ record {
  memory = 7 ∷ 8 ∷ 3 ∷ 4 ∷ 5 ∷ 6 ∷ 7 ∷ 8 ∷ [];
  data_ = 0;
  size_ = 2;
  total_ = 8;
  origin_total = 8;
}
unfolding nice
nice_runs = refl

record_runs : record_of (b'a' ∷ b'b' ∷ []) ≡ b'2' ∷ 10 ∷ b'a' ∷ b'b' ∷ 10 ∷ []
unfolding record_of decimal
record_runs = refl

reserve-Reserves_example : Reserves 100 late (reserve heap reserve_rounds 100 late)
reserve-Reserves_example = reserve-Reserves heap 100 late late-IsValid

append_record-Appends_example : AppendsRecord (b'x' ∷ []) late (append_record heap (b'x' ∷ []) late)
append_record-Appends_example = append_record-Appends heap (b'x' ∷ []) late late-IsValid

-- Two records, "a" and "b".
abbrev two_records : Buffer
two_records = record {
  memory = b'1' ∷ 10 ∷ b'a' ∷ 10 ∷ b'1' ∷ 10 ∷ b'b' ∷ 10 ∷ [];
  data_ = 0;
  size_ = 8;
  total_ = 8;
  origin_total = 8;
}

two_records-IsValid : IsValid two_records
two_records-IsValid = record { fits = omega arith; allocated = refl; small = omega arith }

two_records_text : contents two_records ≡ record_of (b'a' ∷ []) ++ record_of (b'b' ∷ [])
unfolding record_of decimal
two_records_text = refl

-- After the first read the window still begins with the record of "a".
read_record_twice :
    read_record two_records ≡ record_read (b'a' ∷ []) (record two_records { size_ = 4 })
unfolding read_record atoi
read_record_twice = refl

read_record-record_of_example :
    (c : Buffer) × (read_record two_records ≡ record_read (b'a' ∷ []) c)
    × (contents c
        ≡ take (length (record_of (b'b' ∷ []))) (record_of (b'a' ∷ []) ++ record_of (b'b' ∷ [])))
read_record-record_of_example =
    read_record-record_of two_records (b'a' ∷ []) (record_of (b'b' ∷ [])) two_records-IsValid
      two_records_text
