-- ===== src/Camera/Program.antt =====
-- extras/libcamera/main.cpp: the command line, the messages of the scanner, the photos that are
-- saved, and the routes. An image or a photo's metadata is the number of the frame it belongs to,
-- counted from the start; std::stoi and the parser of JSON are arguments.
pub mod Saved
pub mod Routes
use mandeye_controller.Prelude.{
  ℕ, ◌+◌, Bool, true, false, not, ◌&&◌, ◌||◌, Option, none, some, List, [], ◌∷◌, ◌++◌,
  if◌then◌else◌, Text, codes, text_eq, is_empty, is_some,
}
use mandeye_controller.Prelude.Int.{ℤ, pos}

pub record Arguments : Type 0 where
  pub camera_no : ℤ
  pub port_no : ℤ
  pub prefix : Text
  pub config_file_name : Text

abbrev pub defaults : Arguments
defaults = record {
  camera_no = pos 0;
  port_no = pos 8004;
  prefix = codes "cam0_";
  config_file_name = codes "/media/usb/cam0_config.json";
}

abbrev is_one_of : Text → Text → Text → Bool
is_one_of arg long short = text_eq arg long || text_eq arg short

abbrev or_old : Option ℤ → ℤ → ℤ
or_old none old = old
or_old (some n) old = n

-- An option with its value; the arguments that are no option with a value are passed over.
unfoldable pub set_option : (Text → Option ℤ) → Text → Text → Arguments → Option Arguments
set_option stoi arg value a =
    if is_one_of arg (codes "--camera") (codes "-c")
    then some (record a { camera_no = or_old (stoi value) a.camera_no })
    else (if is_one_of arg (codes "--port") (codes "-p")
        then some (record a { port_no = or_old (stoi value) a.port_no })
        else (if is_one_of arg (codes "--prefix") (codes "-t")
            then some (record a { prefix = value })
            else (if is_one_of arg (codes "--config") (codes "-f")
                then some (record a { config_file_name = value })
                else none)))

-- `none` when the program ends after its help.
unfoldable pub parse_arguments : (Text → Option ℤ) → List Text → Arguments → Option Arguments
unfolding set_option
parse_arguments stoi [] a = some a
parse_arguments stoi (arg ∷ []) a =
    if is_one_of arg (codes "--help") (codes "-h") then none else some a
parse_arguments stoi (arg ∷ value ∷ rest) a =
    let after_value = λ (b : Arguments). parse_arguments stoi rest b in
    let after_arg = parse_arguments stoi (value ∷ rest) a in
    elim (set_option stoi arg value a) [
      | some b ↦ after_value b
      | none ↦ if is_one_of arg (codes "--help") (codes "-h") then none else after_arg
    ]

-- A photo on its way to the medium: the name's time stamp, the number of the frame that the
-- callback got, the directory, and the image once it has been copied.
pub record Job : Type 0 where
  pub named : ℕ
  pub from : ℕ
  pub directory : Text
  pub image : Option ℕ

pub record SavedPhoto : Type 0 where
  pub name : ℕ
  pub target : Text
  pub of_frame : ℕ
  pub picture : ℕ
  pub metadata : ℕ

-- The globals, the job of the asynchronous saver, and the photos saved so far.
pub record Program : Type 0 where
  pub frames : ℕ
  pub last_photo : Option ℕ
  pub photo_metadata : ℕ
  pub mode : Text
  pub continous_scan_target : Text
  pub job : Option Job
  pub saved : List SavedPhoto

pub data Event : Type 0 where
  photo : (timestamp : ℕ) → Event
  told : (mode directory : Option Text) → Event
  saver_copies saver_writes : Event

abbrev or_text : Option Text → Text → Text
or_text none old = old
or_text (some s) old = s

unfoldable pub client_thread : Option Text → Option Text → Program → Program
client_thread mode directory p = record p {
  mode = or_text mode p.mode;
  continous_scan_target = or_text directory p.continous_scan_target;
}

-- The callback printFrame: the photo is shown, and it is saved unless one is being saved.
unfoldable pub print_frame : ℕ → Program → Program
print_frame timestamp p =
    let n = p.frames in
    let shown : Program = record p { frames = n + 1; last_photo = some n; photo_metadata = n } in
    if text_eq shown.mode (codes "SCANNING") && not (is_some shown.job)
    then record shown {
      job = some (record {
        named = timestamp;
        from = n;
        directory = shown.continous_scan_target;
        image = none;
      });
    }
    else shown

-- The saver's thread: first it copies the last photo, and later it writes the image and, as they
-- are then, the metadata.
unfoldable pub copy_photo : Program → Program
copy_photo p = elim p.job [
  | none ↦ p
  | some j ↦ elim j.image [
    | none ↦ record p { job = some (record j { image = p.last_photo }) }
    | some n ↦ p
  ]
]

unfoldable pub write_photo : Program → Program
write_photo p = elim p.job [
  | none ↦ p
  | some j ↦ elim j.image [
    | none ↦ p
    | some n ↦ record p {
      job = none;
      saved =
          p.saved
          ++ (record {
            name = j.named;
            target = j.directory;
            of_frame = j.from;
            picture = n;
            metadata = p.photo_metadata;
          }
              ∷ []);
    }
  ]
]

unfoldable pub happen : Event → Program → Program
unfolding client_thread print_frame copy_photo write_photo
happen (photo timestamp) p = print_frame timestamp p
happen (told mode directory) p = client_thread mode directory p
happen saver_copies p = copy_photo p
happen saver_writes p = write_photo p

unfoldable pub happen_all : List Event → Program → Program
unfolding happen
happen_all [] p = p
happen_all (e ∷ es) p = happen_all es (happen e p)

pub data Code : Type 0 where
  ok not_found bad_request method_not_allowed : Code

pub data Method : Type 0 where
  get post options other_method : Method

-- A request to /setConfig: only a POST goes on, and JSON in its body stops the camera and starts it
-- again. `parses` says that the body is JSON, and `starts` that its configuration is taken without an
-- exception. stop() calls the camera manager, so `none` is its call of a null pointer.
unfoldable pub set_config :
    Method → (body : Text) → (has_manager parses starts : Bool) → Option (List Code × Bool)
set_config post body has_manager parses starts =
    if is_empty body || not parses
    then some (bad_request ∷ [], false)
    else (if has_manager
        then (if starts then some (ok ∷ [], true) else some (bad_request ∷ [], false))
        else none)
set_config _ body has_manager parses starts = some (method_not_allowed ∷ [], false)

-- What a request makes the program send, in order, and whether the camera is started again; `none`
-- when the program crashes.
unfoldable pub on_request :
    (resource : Text)
    → Method
    → (body : Text) → (has_photo has_manager parses starts : Bool) → Option (List Code × Bool)
unfolding set_config
on_request resource method body has_photo has_manager parses starts =
    if text_eq resource (codes "/photo")
    then some ((if has_photo then ok else not_found) ∷ [], false)
    else (if text_eq resource (codes "/photoMeta")
        then (if has_photo then some (ok ∷ [], false) else some (not_found ∷ ok ∷ [], false))
        else (if text_eq resource (codes "/photoFull")
            then some ((if has_photo then ok else not_found) ∷ [], false)
            else (if text_eq resource (codes "/getConfig")
                then some (ok ∷ [], false)
                else (if text_eq resource (codes "/setConfig")
                    then set_config method body has_manager parses starts
                    else some (ok ∷ [], false)))))
