-- ===== src/KconfigMap/Tests.antt =====
-- A filesystem module on a host that has it built in.
use autokernel.Base.{List, Option, [], ◌∷◌, some, Str, str}

abbrev running : List (Str × Str)
running = (str "CONFIG_EXT4", str "n") ∷ (str "CONFIG_EXT4_FS", str "y") ∷ []

abbrev ext4_path : Option Str
ext4_path = some (str "fs/ext4/ext4")
