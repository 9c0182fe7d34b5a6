-- ===== src/Lib.antt =====
-- The decisions of autokernel: which changes of a kernel configuration it applies, keeps back, shows
-- for review and records.
--
-- A run collects a snapshot of the host, resolves the modules that the host needs, collects proposals
-- to change configuration symbols from rules and from a language model, sorts them by a policy, has
-- them reviewed by rules or in a terminal interface, and writes the accepted ones as a fragment that
-- is merged into the kernel's `.config`. The model follows the values through those stages. It is
-- split by file of the program:
--
-- Base (Tests, Lists, Text, Sort, Perms, Glob, Int): shared helpers. A Python text is the list of its
--   code points, a dictionary an association list, a set a list with `member`. `Base/Glob` is
--   `fnmatch.fnmatchcase`.
-- Models: src/autokernel/models.py. A confidence, a double in [0, 1], is a natural number in units of
--   2^-1074, in which every such double is whole, so that comparisons are exact. The snapshot has the
--   fields that the modelled code reads, without their nesting.
-- Resolve: src/autokernel/resolve.py, the resolver's result and the filesystem table.
-- KconfigMap (Table, LaterPaths, Pieces): src/autokernel/kconfig_map.py, `candidate_configs` and
--   `resolve_module_to_config`.
-- Subsystem (Regex, Rules): src/autokernel/subsystem.py, the rule table as pieces of alternatives and
--   the search for them, `classify` and `group_by_subsystem`. Laws has its theorems.
-- Policy (Blocklists, LoadBearing, Apply): src/autokernel/policy.py, `compute_load_bearing` in the
--   stages of its body, and `apply_policy` with one function for a round of its loop.
-- Review: src/autokernel/review.py, the rules, `apply_rules` and the presets.
-- Tui (Filters, State): src/autokernel/tui/filters.py and src/autokernel/tui/state.py. A method that
--   changes the working state returns the new one; `current` does too, as it moves the cursor.
-- Kfrag (Parser, Format, Writer): src/autokernel/kfrag.py. The writer gives the text that the program
--   writes to a file, and the parser takes the text that it reads. Lines, Values, Means, Sections,
--   OneLines and Header have the steps of the round trip,
--   Injection a reason of two lines. `str.isdigit` is that of ASCII digits,
--   `str.strip` and `str.splitlines` are those of all code points.
-- Merge (Validation): src/autokernel/merge.py, the merge of two texts and the check of its result.
--   Lines, Lookup, Text and Clean have the steps from single lines to the whole text.
-- KconfigWalk (Lexer, Expr, Rewrite): src/autokernel/kconfig_walk.py, the parser of expressions, the
--   printer and the rewriting of `depends on X if Y`. The parser recurs on fuel, one more than the
--   tokens for the nesting and their number for each loop; Total is about that fuel. Reading, Printing
--   and Meaning have the steps from characters to what an expression means to Kconfig.
-- World (Models, Triage, Exceptions, Waves): src/autokernel/world/models.py, the check of a remedy and
--   the exceptions table of src/autokernel/world/triage.py, and the cost classes and build waves of
--   src/autokernel/world/closure.py. A message of the check is a constructor with its argument. The
--   loop of the waves runs on fuel, one unit for each source: every round gives a wave to one at least.
--   World/Flags and World/Builder (Build, Resume, Retry) are src/autokernel/world/builder.py: the flags
--   and the environment of a build, its stages and audits, what a run builds, and the rounds of triage
--   and rebuild, which use Triage and Exceptions. What the tools of a build, the language model and the
--   coding agent give is an argument, and so is the hash. The number of rounds is the program's.
-- Install (Bootloader, Plan, Execute, Rollback): src/autokernel/bootloader.py, install.py and
--   rollback.py: the boot menu, the plans of an installation, of a commit and of a rollback, and their
--   execution. What a command does to the machine is an argument; the records of installations are a
--   list by the time in their paths. FailFast, Default, Entries, Undo and RoundTrip have the proofs.
-- Patches (Version, Sets, Process, Config): src/autokernel/patches.py: the versions of kernels, the
--   loading of a set from what tomllib and the file system give, the application of sets to a tree, and
--   their configuration. What git does to a tree is an argument. The tags before a subject are taken off
--   on fuel, a text having fewer of them than characters. Order, RoundTrip, Loaded, Outcomes, Whole,
--   Merged, Applied and Lines have the proofs.
-- Samples, and the modules named Tests: small inputs, runs on them, and the theorems at them.
--
-- Not modelled: the command line, the collection of snapshots, the calls of the language model, the
-- build of the kernel, the boot test, the images of a world and the screens, which read and write files
-- and run other programs. What they hand to the modelled code is an argument of its functions.
mod Base
mod Samples
pub mod Models
pub mod KconfigMap
pub mod Resolve
pub mod Subsystem
pub mod KconfigWalk
pub mod Install
pub mod Kfrag
pub mod Merge
pub mod Patches
pub mod Policy
pub mod Review
pub mod World
pub mod Tui
