-- ===== src/Api/Signature.antt =====
-- What the endpoints of the API and the functions of its client declare of a call: parameters,
-- answers, and when a declaration of the client fits one of the API.
use automated_actions.Prelude.{
  String, Bool, true, false, not, ◌&&◌, ◌||◌, List, [], ◌∷◌, ◌==◌, if◌then◌else◌,
}

pub data Method : Type 0 where
  get post : Method

abbrev pub same_method : Method → Method → Bool
same_method get get = true
same_method get post = false
same_method post get = false
same_method post post = true

-- The annotations: str, bool, int, float, datetime, dict, list[str], ActionStatus, and the kinds
-- that can be restarted.
pub data Hint : Type 0 where
  a_text a_flag an_int a_float a_moment a_dict texts a_status restart_kind : Hint

-- Every text may be sent for a datetime or a kind; the API then reads it.
unfoldable pub fits : Hint → Hint → Bool
fits a_text a_text = true
fits a_text a_moment = true
fits a_text restart_kind = true
fits a_flag a_flag = true
fits an_int an_int = true
fits a_float a_float = true
fits a_dict a_dict = true
fits texts texts = true
fits a_status a_status = true
fits _ _ = false

-- A parameter of a call; it may be left out unless it is required.
pub record Parameter : Type 0 where
  pub name : String
  pub hint : Hint
  pub is_required : Bool

-- The client's parameters are those of the API, in its order.
unfoldable pub are_accepted : List Parameter → List Parameter → Bool
unfolding fits
are_accepted [] [] = true
are_accepted (p ∷ ps) (q ∷ qs) =
    let rest = are_accepted ps qs in
    (p.name == q.name) && (fits p.hint q.hint && ((p.is_required || not q.is_required) && rest))
are_accepted [] (q ∷ qs) = false
are_accepted (p ∷ ps) [] = false

-- A field of an answer: it may be left out unless it is required, and may be null.
pub record Field : Type 0 where
  pub name : String
  pub hint : Hint
  pub is_required : Bool
  pub is_nullable : Bool

pub data Answer : Type 0 where
  object list_of : List Field → Answer
  plain : Hint → Answer

-- A field that the client reads, and one that the API gives.
unfoldable pub is_readable : Field → Field → Bool
unfolding fits
is_readable read given =
    (read.name == given.name)
    && (fits read.hint given.hint
        && ((given.is_required || not read.is_required)
            && (read.is_nullable || not given.is_nullable)))

-- A field that is not given must not be required.
unfoldable pub field_reads : Field → List Field → Bool
unfolding is_readable
field_reads read [] = not read.is_required
field_reads read (given ∷ fields) =
    let rest = field_reads read fields in
    if read.name == given.name then is_readable read given else rest

unfoldable pub fields_read : List Field → List Field → Bool
unfolding field_reads
fields_read [] given = true
fields_read (read ∷ fields) given =
    let rest = fields_read fields given in field_reads read given && rest

-- The client can read what the API answers.
unfoldable pub reads : Answer → Answer → Bool
unfolding fields_read fits
reads (object fields) (object given) = fields_read fields given
reads (list_of fields) (list_of given) = fields_read fields given
reads (plain hint) (plain given) = fits hint given
reads _ _ = false
