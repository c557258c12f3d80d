-- ===== src/Shell/Install.antt =====
-- The lists of commands of src/svc/svc_shell.c: what an installed list adds.
use qoraal.Base.{
  ℕ, ◌≡◌, inl, inr, refl, sym, false, Option, none, some, List, [], ◌∷◌, ◌++◌, ◌==◌, Bool-cases,
  has, length,
}
use mathlib.Core.List.{append_assoc, append-nil}
use qoraal.Shell.Commands.{Command, CommandList, Commands, install, entries, walk, visit, find}
use qoraal.Shell.Script.{same}

-- The first that is there
abbrev pub or_else :
    Option (CommandList × Command) → Option (CommandList × Command) → Option (CommandList × Command)
or_else none o = o
or_else (some e) o = some e

-- No list is empty.
abbrev pub AllFilled : (ℕ → CommandList) → List ℕ → Type 0
AllFilled lists [] = Unit
AllFilled lists (a ∷ rest) = ((length (lists a).cmds == 0) ≡ false) × AllFilled lists rest

walk-append :
    (lists : ℕ → CommandList) (xs ys : List ℕ)
    → AllFilled lists xs
    → walk lists (xs ++ ys) ≡ walk lists xs ++ walk lists ys
unfolding walk
walk-append lists [] ys h = refl
walk-append lists (x ∷ xs) ys h =
    rw (h.0, walk-append lists xs ys h.1)
      (sym (append_assoc (entries (lists x) (lists x).cmds) (walk lists xs) (walk lists ys)))

find-append :
    (name : List ℕ) (xs ys : List (CommandList × Command))
    → find name (xs ++ ys) ≡ or_else (find name xs) (find name ys)
unfolding find
find-append name [] ys = refl
find-append name ((l, c) ∷ xs) ys = elim (Bool-cases (same c.cmd name)) [
  | inl e ↦ rw e refl
  | inr e ↦ rw e (find-append name xs ys)
]

-- A list that is installed behind lists that all have commands adds its own: a name is looked for in
-- the lists as before, and then in the new one.
pub install-find :
    (s : Commands) (l : ℕ) (name : List ℕ)
    → has l s.installed ≡ false
    → AllFilled s.lists s.installed
    → (length (s.lists l).cmds == 0) ≡ false
    → find name (visit (install s l).0)
      ≡ or_else (find name (visit s)) (find name (entries (s.lists l) (s.lists l).cmds))
unfolding install visit walk
install-find s l name n h f =
    let own = entries (s.lists l) (s.lists l).cmds in
    rw
      (
        n,
        walk-append s.lists s.installed (l ∷ []) h,
        f,
        append-nil own,
        sym (append_assoc (entries s.static s.static.cmds) (walk s.lists s.installed) own),
      )
      (find-append name (visit s) own)
