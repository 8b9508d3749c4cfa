-- ===== src/Tests/Table.antt =====
-- The hash map of the kernel as a function, without a limit on its size.
use cgproxy.Base.{Bool, true, false, Option, none, some, if◌then◌else◌, ◌≡◌, refl, ap}
use cgproxy.Base.Int.{ℤ, eq_ℤ}
use cgproxy.Snoop.Kernel.{Event, Records}
use cgproxy.Snoop.Kernel.Laws.{IsLawful}

abbrev pub Table : Type 0
Table = ℤ → Option Event

abbrev put : ℤ → Option Event → Table → Table
put k o m j = if eq_ℤ j k then o else m j

abbrev insert : ℤ → Event → Option Event → Table → Bool × Table
insert k e (some _) m = (false, m)
insert k e none m = (true, put k (some e) m)

abbrev pub table : Records
table = record {
  State = Table;
  lookup = λ k m. m k;
  update = λ k e m. insert k e (m k) m;
  assign = λ k e m. put k (some e) m;
  delete = λ k m. put k none m;
}

insert-lookup :
    (j k : ℤ) (e : Event) (o : Option Event) (m : Table)
    → (insert k e o m).0 ≡ true
    → (insert k e o m).1 j ≡ (if eq_ℤ j k then some e else m j)
insert-lookup j k e (some _) m h = cc
insert-lookup j k e none m h = refl

insert_failed :
    (k : ℤ) (e : Event) (o : Option Event) (m : Table)
    → (insert k e o m).0 ≡ false
    → (insert k e o m).1 ≡ m
insert_failed k e (some _) m h = refl
insert_failed k e none m h = cc

pub table-IsLawful : IsLawful table
table-IsLawful = record {
  lookup-update = λ j k e m h. insert-lookup j k e (m k) m h;
  update_failed = λ k e m h. insert_failed k e (m k) m h;
  update_exists = λ k e f m h. ap (λ o. (insert k e o m).0) h;
  lookup-assign = λ j k e f m h. refl;
  lookup-delete = λ j k m. refl;
}

abbrev pub no_records : Table
no_records _ = none
