-- ===== src/Install/Bootloader.antt =====
-- `Bootloader`, its detection and the entries of GRUB in src/autokernel/bootloader.py.
use autokernel.Base.{
  ℕ, Bool, true, false, not, ◌&&◌, ◌||◌, List, [], ◌∷◌, ◌++◌, Option, none, some, Str, str, ◌==◌,
  if◌then◌else◌, same, join, starts_with, ends_with, keep,
}
use autokernel.Base.Space.{is_space, is_nil, drop_left, strip, splitlines, lines_from}
use autokernel.World.Waves.{contains_text}

pub data BootloaderKind : Type 0 where
  grub2 grub_legacy systemd_boot refind unknown_loader : BootloaderKind

pub record Bootloader : Type 0 where
  pub kind : BootloaderKind
  pub detected_via : Str
  pub config_dir : Option Str
  pub grub_tool_prefix : Str

abbrev pub is_grub2 : BootloaderKind → Bool
is_grub2 grub2 = true
is_grub2 _ = false

abbrev pub is_supported : Bootloader → Bool
is_supported b = is_grub2 b.kind

unfoldable pub regenerate_cmd : Bool → Bootloader → Option (List Str)
regenerate_cmd has_update_grub b =
    if not (is_grub2 b.kind)
    then none
    else if same b.grub_tool_prefix (str "grub2-")
    then some (str "grub2-mkconfig" ∷ str "-o" ∷ str "/boot/grub2/grub.cfg" ∷ [])
    else if has_update_grub
    then some (str "update-grub" ∷ [])
    else some (str "grub-mkconfig" ∷ str "-o" ∷ str "/boot/grub/grub.cfg" ∷ [])

-- `self.grub_tool_prefix or "grub-"`
abbrev pub tool_prefix : Bootloader → Str
tool_prefix b = if is_nil b.grub_tool_prefix then str "grub-" else b.grub_tool_prefix

unfoldable pub set_default_argv : Bootloader → Str → Option (List Str)
set_default_argv b entry =
    if not (is_grub2 b.kind) then none else some ((tool_prefix b ++ str "set-default") ∷ entry ∷ [])

unfoldable pub one_shot_argv : Bootloader → Str → Option (List Str)
one_shot_argv b entry =
    if not (is_grub2 b.kind) then none else some ((tool_prefix b ++ str "reboot") ∷ entry ∷ [])

pub record Probe : Type 0 where
  pub path : Str
  pub kind : BootloaderKind
  pub grub_tool_prefix : Str
  pub config_dir : Str

abbrev probe : Str → BootloaderKind → Str → Str → Probe
probe path kind prefix dir = record {
  path = path;
  kind = kind;
  grub_tool_prefix = prefix;
  config_dir = dir;
}

unfoldable pub default_probes : List Probe
default_probes =
    probe (str "/boot/grub2/grub.cfg") grub2 (str "grub2-") (str "/boot/grub2")
    ∷ probe (str "/boot/grub/grub.cfg") grub2 [] (str "/boot/grub")
    ∷ probe (str "/boot/loader/loader.conf") systemd_boot [] (str "/boot/loader")
    ∷ probe (str "/efi/loader/loader.conf") systemd_boot [] (str "/efi/loader")
    ∷ probe (str "/boot/EFI/refind/refind.conf") refind [] (str "/boot/EFI/refind")
    ∷ probe (str "/boot/grub/menu.lst") grub_legacy [] (str "/boot/grub")
    ∷ []

abbrev pub no_bootloader : Bootloader
no_bootloader = record {
  kind = unknown_loader;
  detected_via = str "no known bootloader signature found";
  config_dir = none;
  grub_tool_prefix = [];
}

unfoldable pub detect : (Str → Bool) → List Probe → Bootloader
detect exists [] = no_bootloader
detect exists (p ∷ probes) =
    if exists p.path
    then record {
      kind = p.kind;
      detected_via = p.path;
      config_dir = some p.config_dir;
      grub_tool_prefix = p.grub_tool_prefix;
    }
    else detect exists probes

-- `line.split(None, 1)[1]`, on a line without spaces at its ends, or nothing
unfoldable pub after_word : Str → Str
after_word [] = []
after_word (c ∷ s) = if is_space c then drop_left is_space s else after_word s

-- The text before the quote, if it comes again.
unfoldable pub until_quote : ℕ → Str → Option Str
until_quote q [] = none
until_quote q (c ∷ s) =
    let on : Option Str = elim (until_quote q s) [ none ↦ none | some t ↦ some (c ∷ t) ] in
    if c == q then some [] else on

unfoldable pub quoted_title : Str → Option Str
unfolding until_quote
quoted_title [] = none
quoted_title (c ∷ s) = if c == b'\'' || c == b'"' then until_quote c s else none

unfoldable pub grub_title : Str → Option Str
unfolding after_word quoted_title
grub_title line = quoted_title (after_word line)

pub record Menu : Type 0 where
  pub stack : List (Option Str)
  pub out : List Str

abbrev pub titles : List (Option Str) → List Str
titles [] = []
titles (none ∷ stack) = titles stack
titles (some t ∷ stack) = t ∷ titles stack

abbrev pub with_title : Option Str → List Str → List Str → List Str
with_title none parents out = out
with_title (some title) parents out = out ++ join (str ">") (parents ++ title ∷ []) ∷ []

-- `stack.pop()`, where the last one is the innermost
abbrev pub pop : List (Option Str) → List (Option Str)
pop [] = []
pop (t ∷ []) = []
pop (t ∷ u ∷ stack) = t ∷ pop (u ∷ stack)

abbrev pub opens : Str → Bool
opens line =
    (starts_with line (str "submenu ") || starts_with line (str "menuentry "))
    && ends_with line (str "{")

-- One round of the loop, on a line without spaces at its ends.
unfoldable pub menu_line : Str → Menu → Menu
unfolding grub_title
menu_line line m =
    if opens line
    then if starts_with line (str "submenu ")
      then record m { stack = m.stack ++ grub_title line ∷ [] }
      else record {
        stack = m.stack ++ none ∷ [];
        out = with_title (grub_title line) (titles m.stack) m.out;
      }
    else if same line (str "}")
    then record m { stack = pop m.stack }
    else m

unfoldable pub menu_lines : List Str → Menu → Menu
unfolding menu_line
menu_lines [] m = m
menu_lines (raw ∷ lines) m = menu_lines lines (menu_line (strip raw) m)

unfoldable pub grub_entries : Str → List Str
unfolding menu_lines lines_from
grub_entries text = (menu_lines (splitlines text) (record { stack = []; out = [] })).out

abbrev pub first_of : List Str → List Str → Option Str
first_of (n ∷ nested) hits = some n
first_of [] (h ∷ hits) = some h
first_of [] [] = none

unfoldable pub grub_entry_for_release : Str → Str → Option Str
unfolding grub_entries contains_text
grub_entry_for_release release text =
    let hits =
      keep
        (λ e.
          ends_with e (str "with Linux " ++ release) && not (contains_text (str "recovery mode") e))
        (grub_entries text) in
    first_of (keep (contains_text (str ">")) hits) hits
