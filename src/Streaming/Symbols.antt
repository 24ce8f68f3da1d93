-- ===== src/Streaming/Symbols.antt =====
-- The sets of symbols of src/streaming.cpp, std::unordered_set as a list; the order of the elements
-- is not specified there, so only membership is stated.
use libtradier.Base.{◌≡◌, refl, false, ◌&&◌, ◌||◌, not, List, [], ◌∷◌, if◌then◌else◌, arith}
use libtradier.Text.{Text, text_eq, text_eq_iff}
use libtradier.Streaming.Messages.{member}

-- insert(symbol)
unfoldable pub insert : Text → List Text → List Text
insert symbol symbols = if member symbol symbols then symbols else symbol ∷ symbols

-- The loop over the symbols of a subscription, and of addSymbols
unfoldable pub insert_all : List Text → List Text → List Text
unfolding insert
insert_all [] symbols = symbols
insert_all (new ∷ more) symbols = insert_all more (insert new symbols)

-- erase(symbol)
unfoldable pub erase : Text → List Text → List Text
erase symbol [] = []
erase symbol (s ∷ symbols) =
    let rest = erase symbol symbols in if text_eq s symbol then rest else s ∷ rest

-- The loop of removeSymbols
unfoldable pub erase_all : List Text → List Text → List Text
unfolding erase
erase_all [] symbols = symbols
erase_all (old ∷ more) symbols = erase_all more (erase old symbols)

-- No symbol stands in the list twice.
abbrev pub IsDistinct : List Text → Type 0
IsDistinct [] = Unit
IsDistinct (s ∷ symbols) = (member s symbols ≡ false) × IsDistinct symbols

member-insert :
    (x symbol : Text) (symbols : List Text)
    → member x (insert symbol symbols) ≡ (text_eq symbol x || member x symbols)
unfolding insert
member-insert x symbol symbols = ground (arith, text_eq_iff symbol x)

member-insert_all :
    (x : Text) (new symbols : List Text)
    → member x (insert_all new symbols) ≡ (member x new || member x symbols)
unfolding insert_all
member-insert_all x [] symbols = refl
member-insert_all x (n ∷ new) symbols =
    ground (arith, member-insert_all x new (insert n symbols), member-insert x n symbols)

member-erase :
    (x symbol : Text) (symbols : List Text)
    → member x (erase symbol symbols) ≡ (not (text_eq symbol x) && member x symbols)
unfolding erase
member-erase x symbol [] = ground arith
member-erase x symbol (s ∷ symbols) = ground (
  arith,
  member-erase x symbol symbols,
  text_eq_iff symbol x,
  text_eq_iff s x,
  text_eq_iff s symbol,
)

member-erase_all :
    (x : Text) (old symbols : List Text)
    → member x (erase_all old symbols) ≡ (not (member x old) && member x symbols)
unfolding erase_all
member-erase_all x [] symbols = refl
member-erase_all x (o ∷ old) symbols =
    ground (arith, member-erase_all x old (erase o symbols), member-erase x o symbols)

insert-IsDistinct :
    (symbol : Text) (symbols : List Text) → IsDistinct symbols → IsDistinct (insert symbol symbols)
unfolding insert
insert-IsDistinct symbol symbols h = ground arith

insert_all-IsDistinct :
    (new symbols : List Text) → IsDistinct symbols → IsDistinct (insert_all new symbols)
unfolding insert_all
insert_all-IsDistinct [] symbols h = h
insert_all-IsDistinct (n ∷ new) symbols h =
    insert_all-IsDistinct new (insert n symbols) (insert-IsDistinct n symbols h)

erase-IsDistinct :
    (symbol : Text) (symbols : List Text) → IsDistinct symbols → IsDistinct (erase symbol symbols)
unfolding erase
erase-IsDistinct symbol [] h = tt
erase-IsDistinct symbol (s ∷ symbols) h =
    ground (arith, erase-IsDistinct symbol symbols, member-erase s symbol symbols)

erase_all-IsDistinct :
    (old symbols : List Text) → IsDistinct symbols → IsDistinct (erase_all old symbols)
unfolding erase_all
erase_all-IsDistinct [] symbols h = h
erase_all-IsDistinct (o ∷ old) symbols h =
    erase_all-IsDistinct old (erase o symbols) (erase-IsDistinct o symbols h)

-- addSymbols and removeSymbols are union and difference of sets: a symbol is subscribed after them
-- exactly if it was or is among the new ones, or if it was and is not among the old ones; no symbol is
-- held twice if none was.
pub insert_all-erase_all :
    (x : Text) (given symbols : List Text)
    → IsDistinct symbols
    → (member x (insert_all given symbols) ≡ (member x given || member x symbols))
      × (member x (erase_all given symbols) ≡ (not (member x given) && member x symbols))
      × IsDistinct (insert_all given symbols)
      × IsDistinct (erase_all given symbols)
insert_all-erase_all x given symbols h = (
  member-insert_all x given symbols,
  member-erase_all x given symbols,
  insert_all-IsDistinct given symbols h,
  erase_all-IsDistinct given symbols h,
)
