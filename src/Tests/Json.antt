-- ===== src/Tests/Json.antt =====
-- Values of JSON as trees, and starts of the recorder on concrete configuration files.
use mandeye_controller.Prelude.{
  ℕ, ◌≡◌, ◌≢◌, ◌⊎◌, inl, inr, refl, sym, Bool, true, false, not, ◌&&◌, Option, none, some, some-eq,
  [], Text, codes, text_eq, text_eq_refl, if◌then◌else◌,
}
use mandeye_controller.Prelude.Int.{ℤ, pos}
use mandeye_controller.App.Web.{get_env_string}
use mandeye_controller.Prelude.Assoc.{lookup}
use mandeye_controller.Rtk.{baudrate_to_constant}
use mandeye_controller.Rtk.Config.{
  Json, Settings, Disk, Launch, launch, configure, begin, from_environment, config_path,
  directory_name_of, Begun,
}
use mandeye_controller.Rtk.Config.Paths.{JsonLaws}
use mandeye_controller.Rtk.Config.Starts.{configure-first, configure-ends, begin-restart}

-- An object is the flag that it has an entry, and its entries; a file holds a value itself.
data Tree : Type 0 where
  nothing list : Tree
  word : Text → Tree
  count : ℤ → Tree
  object : (has_entry : Bool) → (Text → Tree) → Tree

unfoldable is_object : Tree → Bool
is_object (object b f) = true
is_object nothing = false
is_object list = false
is_object (word t) = false
is_object (count n) = false

unfoldable has_no_entry : Tree → Bool
has_no_entry (object b f) = not b
has_no_entry _ = false

unfoldable entry : Text → Tree → Option Tree
entry k nothing = some nothing
entry k (object b f) = some (f k)
entry k list = none
entry k (word t) = none
entry k (count n) = none

abbrev with_entry : Text → Tree → (Text → Tree) → Tree
with_entry k v f = object true (λ l. if text_eq k l then v else f l)

unfoldable put : Text → Tree → Tree → Option Tree
put k v nothing = some (with_entry k v (λ l. nothing))
put k v (object b f) = some (with_entry k v f)
put k v list = none
put k v (word t) = none
put k v (count n) = none

unfoldable get_text : Tree → Option Text
get_text (word t) = some t
get_text _ = none

unfoldable get_int : Tree → Option ℤ
get_int (count n) = some n
get_int _ = none

instance abbrev trees : Json
trees = record {
  J = Tree;
  Content = Tree;
  null = nothing;
  is_object = is_object;
  has_no_entry = has_no_entry;
  entry = entry;
  put = put;
  text = word;
  number = count;
  get_text = get_text;
  get_int = get_int;
  print = some;
  parse = some;
}

entry-put : (k : Text) (v j : Tree) {o : Tree} → put k v j ≡ some o → entry k o ≡ some v
unfolding put entry
entry-put k v nothing e = rw (sym (some-eq e), text_eq_refl k) refl
entry-put k v (object b f) e = rw (sym (some-eq e), text_eq_refl k) refl
entry-put k v list e = absurd cc
entry-put k v (word t) e = absurd cc
entry-put k v (count n) e = absurd cc

entry-put_other :
    (k l : Text) (v j : Tree) {o : Tree}
    → put k v j ≡ some o
    → text_eq k l ≡ false
    → entry l o ≡ entry l j
unfolding put entry
entry-put_other k l v nothing e h = rw (sym (some-eq e), h) refl
entry-put_other k l v (object b f) e h = rw (sym (some-eq e), h) refl
entry-put_other k l v list e h = absurd cc
entry-put_other k l v (word t) e h = absurd cc
entry-put_other k l v (count n) e h = absurd cc

put-object :
    (k : Text) (v j : Tree) {o : Tree}
    → put k v j ≡ some o
    → is_object o && not (has_no_entry o) ≡ true
unfolding put is_object has_no_entry
put-object k v nothing e = rw (sym (some-eq e)) refl
put-object k v (object b f) e = rw (sym (some-eq e)) refl
put-object k v list e = absurd cc
put-object k v (word t) e = absurd cc
put-object k v (count n) e = absurd cc

put_entry :
    (k : Text) (v j : Tree) {o : Tree} → entry k j ≡ some o → (p : Tree) × (put k v j ≡ some p)
unfolding put entry
put_entry k v nothing e = (_, refl)
put_entry k v (object b f) e = (_, refl)
put_entry k v list e = absurd cc
put_entry k v (word t) e = absurd cc
put_entry k v (count n) e = absurd cc

entry-object :
    (k : Text) (j : Tree) {o : Tree} → entry k j ≡ some o → (is_object j ≡ true) ⊎ (j ≡ nothing)
unfolding entry is_object
entry-object k nothing e = inr refl
entry-object k (object b f) e = inl refl
entry-object k list e = absurd cc
entry-object k (word t) e = absurd cc
entry-object k (count n) e = absurd cc

tree_laws : JsonLaws trees
unfolding entry is_object get_text get_int
tree_laws = record {
  entry-put = entry-put;
  entry-put_other = entry-put_other;
  put-object = put-object;
  put_entry = put_entry;
  entry-null = λ k. refl;
  entry-object = entry-object;
  null-object = refl;
  text-back = λ t. refl;
  number-back = λ n. refl;
  print-back = λ j e. sym e;
}

abbrev defaults : Settings
defaults = record {
  ntrip_host = [];
  ntrip_port = pos 0;
  ntrip_mount_point = [];
  ntrip_user = [];
  ntrip_password = [];
  uart_port = codes "/dev/ublox";
  uart_baud_rate = pos 115200;
  file_length_ms = pos 20000;
}

abbrev holds : Option Tree → Disk trees
holds file = record { file = file; readable = true; writable = true }

configure-first_example :
    (d' : Disk trees) × ((configure trees (holds none) defaults ≡ some (defaults, d'))
      × ((t : Settings) → configure trees d' t ≡ some (defaults, d')))
configure-first_example =
    configure-first trees tree_laws (holds none) defaults refl refl refl (λ o e. (o, refl))

list_apart : list ≢ nothing
list_apart e = cc

no_object : is_object list ≡ false
unfolding is_object
no_object = refl

configure-ends_example : configure trees (holds (some list)) defaults ≡ none
configure-ends_example =
    configure-ends trees tree_laws (holds (some list)) defaults list refl refl refl no_object
      list_apart

-- The environment says nothing at the first start, and another port at the second.
abbrev stoi : Text → Option ℤ
stoi t = if text_eq t (codes "115200") then some (pos 115200) else none

abbrev silent : Text → Option Text
silent name = none

abbrev other_port : Text → Option Text
other_port name =
    if text_eq name (codes "EXTRA_GNSS_UART_PORT") then some (codes "/dev/ttyS0") else none

abbrev launched : Launch ℕ
launched = record { ntrip_client = none; listener = some (codes "/dev/ublox", 115200) }

abbrev kept : Disk trees
kept = (configure-first trees tree_laws (holds none) defaults refl refl refl (λ o e. (o, refl))).0

-- There is no file anywhere, and after the first start the one at the default path.
abbrev nowhere : Text → Disk trees
nowhere path = holds none

abbrev default_path : Text
default_path = codes "/media/usb/config_extra_gps.json"

abbrev afterwards : Text → Disk trees
afterwards path = if text_eq path default_path then kept else holds none

abbrev begun : Begun trees ℕ
begun = record {
  path = default_path;
  disk = kept;
  directory_name = codes "EXTRA_GNSS";
  settings = defaults;
  launched = launched;
}

first_begin : begin trees stoi silent (λ n. n) (λ port rate. true) nowhere ≡ some begun
unfolding begin from_environment config_path directory_name_of get_env_string text_eq launch
    baudrate_to_constant lookup
first_begin =
    rw (configure-first trees tree_laws (holds none) defaults refl refl refl (λ o e. (o, refl))).1.0
      refl

second_environment :
    from_environment stoi other_port ≡ some (record defaults { uart_port = codes "/dev/ttyS0" })
unfolding from_environment get_env_string text_eq
second_environment = refl

same_path : config_path other_port ≡ config_path silent
unfolding config_path get_env_string text_eq
same_path = refl

file_is_left : afterwards (config_path silent) ≡ kept
unfolding config_path get_env_string text_eq
file_is_left = refl

begin-restart_example :
    begin trees stoi other_port (λ n. n) (λ port rate. true) afterwards
    ≡ some (record begun { directory_name = directory_name_of other_port })
begin-restart_example =
    begin-restart trees tree_laws stoi silent other_port (λ n. n) (λ port rate. true) nowhere
      afterwards refl refl first_begin second_environment same_path file_is_left
