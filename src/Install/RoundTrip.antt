-- ===== src/Install/RoundTrip.antt =====
-- The rollback of src/autokernel/rollback.py finds and undoes what src/autokernel/install.py recorded.
use autokernel.Base.{true, false, List, Str, ◌≡◌, All, member, text_le}
use autokernel.Install.Bootloader.{Bootloader}
use autokernel.Install.Execute.{Records, Outcome, refused, executed}
use autokernel.Install.Rollback.{keys}

-- The records that an installation leaves.
abbrev pub recorded : {M : Type 0} → Outcome M → Records → Records
recorded (refused why) records = records
recorded (executed e) records = e.records

-- A time later than all those of the records.
abbrev pub IsNewest : Str → Records → Type 0
IsNewest stamp records =
    (member stamp (keys records) ≡ false) × All (λ k. text_le k stamp ≡ true) (keys records)
