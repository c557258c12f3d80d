-- ===== src/Logger/Create.antt =====
-- `logger_create_task` of src/svc/svc_logger.c, without the line end and the statistics of the heap
-- that other settings append. The block is larger than the stamp and the text, so that neither is cut.
use qoraal.Base.{
  ℕ, ◌+◌, ◌-◌, ◌/◌, ◌%◌, ◌^◌, Bool, ◌&&◌, ◌||◌, not, Option, none, some, List, [], ◌∷◌, ◌++◌, ◌==◌,
  if◌then◌else◌, length,
}
use qoraal.Logger.{Message, Logger, no_formatting, no_timestamp}

-- The last character of a text is cut off if it is `c`.
unfoldable pub cut : (c : ℕ) → List ℕ → List ℕ
cut c [] = []
cut c (x ∷ xs) = let rest = cut c xs in if length xs == 0 && x == c then [] else x ∷ rest

-- An empty text, with pointers of 32 bits: the characters looked at and overwritten are the bytes of the identifier, which
-- stands in front of the text, the higher one next to it.
unfoldable pub cut_id : (id : ℕ) → ℕ
cut_id id =
    if id / 2 ^ 8 == 10
    then (if id % 2 ^ 8 == 13 then id - id % 2 ^ 8 else id % 2 ^ 8)
    else if id / 2 ^ 8 == 13
    then id % 2 ^ 8
    else id

-- The end of the line is cut off. Behind a lone line feed, the byte in front of the text is looked at.
unfoldable pub trimmed : Message → Message
trimmed m =
    if length m.text == 0
    then record m { id = cut_id m.id }
    else if length m.text == 1 && length (cut 10 m.text) == 0 && m.id / 2 ^ 8 == 13
    then record m { id = m.id % 2 ^ 8 }
    else record m { text = cut 13 (cut 10 m.text) }

-- The text of a message, behind the stamp of the time where the type asks for it
unfoldable pub stamped : (type : ℕ) → (stamp text : List ℕ) → List ℕ
stamped type stamp text =
    if not (no_formatting type || no_timestamp type) then stamp ++ text else text

-- A block is taken from the heap.
unfoldable pub taken : Logger → Logger
taken s = record s { id = (s.id + 1) % 2 ^ 16; blocks = s.blocks + 1 }

-- `logger_create_task`; no formatted text is a failure to format it.
unfoldable pub create_task :
    Logger
    → (type facility : ℕ) → (allocated : Bool) → (stamp : List ℕ) → Option (List ℕ)
    → Logger × Option Message
create_task s type facility allocated stamp none = (s, none)
create_task s type facility allocated stamp (some text) =
    let m : Message = record {
      type = type;
      facility = facility;
      id = s.id;
      text = stamped type stamp text;
    } in
    if not allocated
    then (s, none)
    else (taken s, some (if not (no_formatting type) then trimmed m else m))
