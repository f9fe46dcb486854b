-- ===== src/Camera/Program/Saved.antt =====
-- The photos that extras/libcamera/main.cpp saves: which frame a file shows.
use mandeye_controller.Prelude.{
  ℕ, ◌+◌, ◌≤◌, ◌<◌, ◌≡◌, refl, not, ◌&&◌, Option, none, some, List, [], ◌∷◌, arith, inl, inr,
  Bool-cases, All, All-append, codes, text_eq, is_some,
}
use mandeye_controller.Camera.Program.{
  Job, SavedPhoto, Program, Event, photo, told, saver_copies, saver_writes, client_thread,
  print_frame, copy_photo, write_photo, happen, happen_all,
}

-- The image is of the frame that the file is named after or of a later one, and the metadata of the
-- image's frame or of a later one.
abbrev pub IsLate : SavedPhoto → Type 0
IsLate s = (s.of_frame ≤ s.picture) × (s.picture ≤ s.metadata)

unfoldable pub LastOk : Option ℕ → (metadata frames : ℕ) → Type 0
LastOk none metadata frames = Unit
LastOk (some n) metadata frames = (n ≡ metadata) × (n < frames)

ImageOk : Option ℕ → (from last : ℕ) → Type 0
ImageOk none from last = Unit
ImageOk (some n) from last = (from ≤ n) × (n ≤ last)

unfoldable pub JobOk : Option Job → Option ℕ → Type 0
unfolding ImageOk
JobOk none last = Unit
JobOk (some j) none = ⊥
JobOk (some j) (some n) = (j.from ≤ n) × ImageOk j.image j.from n

-- The last photo is of the last frame, and a job's image lies between its frame and the last.
unfoldable pub IsOrdered : Program → Type 0
unfolding LastOk JobOk
IsOrdered p =
    LastOk p.last_photo p.photo_metadata p.frames × (JobOk p.job p.last_photo × All IsLate p.saved)

ImageOk-later :
    (image : Option ℕ) (from n m : ℕ) → n ≤ m → ImageOk image from n → ImageOk image from m
unfolding ImageOk
ImageOk-later none from n m h i = tt
ImageOk-later (some k) from n m h (low, high) = (low, omega (arith, high, h))

JobOk-later :
    (job : Option Job) (last : Option ℕ) (metadata frames : ℕ)
    → LastOk last metadata frames
    → JobOk job last
    → JobOk job (some frames)
unfolding JobOk LastOk
JobOk-later none last metadata frames l h = tt
JobOk-later (some j) none metadata frames l h = absurd h
JobOk-later (some j) (some n) metadata frames (e, below) (low, image) =
    (omega (arith, low, below), ImageOk-later j.image j.from n frames (omega (arith, below)) image)

print_frame-IsOrdered : (t : ℕ) (p : Program) → IsOrdered p → IsOrdered (print_frame t p)
unfolding print_frame IsOrdered JobOk LastOk ImageOk
print_frame-IsOrdered t p (last, (job, saved)) =
    let later = JobOk-later p.job p.last_photo p.photo_metadata p.frames last job in
    let shown : (p.frames ≡ p.frames) × (p.frames < p.frames + 1) = (refl, omega arith) in
    elim (Bool-cases (text_eq p.mode (codes "SCANNING") && not (is_some p.job))) [
      | inr unsaved ↦ rw unsaved (shown, (later, saved))
      | inl free ↦ rw free (shown, ((omega arith, tt), saved))
    ]

-- The program with a job whose image is given, and a last photo.
abbrev saving : Program → Job → Option ℕ → Option ℕ → Program
saving p j image last = record p { job = some (record j { image = image }); last_photo = last }

-- The steps of the saver, by the job, its image and the last photo.
copy_image :
    (p : Program) (j : Job) (image last : Option ℕ)
    → IsOrdered (saving p j image last)
    → IsOrdered (copy_photo (saving p j image last))
unfolding copy_photo IsOrdered JobOk LastOk ImageOk
copy_image p j image none (last, (job, saved)) = absurd job
copy_image p j none (some n) (last, ((low, image), saved)) =
    (last, ((low, (low, omega arith)), saved))
copy_image p j (some m) (some n) h = h

write_image :
    (p : Program) (j : Job) (image last : Option ℕ)
    → IsOrdered (saving p j image last)
    → IsOrdered (write_photo (saving p j image last))
unfolding write_photo IsOrdered JobOk LastOk ImageOk
write_image p j image none (last, (job, saved)) = absurd job
write_image p j none (some n) h = h
write_image p j (some m) (some n) ((e, below), ((low, (from, to)), saved)) =
    ((e, below), (tt, All-append IsLate p.saved _ saved ((from, omega (arith, to, e)), tt)))

saver_at :
    (p : Program) (job : Option Job)
    → IsOrdered (record p { job = job })
    → IsOrdered (copy_photo (record p { job = job }))
      × IsOrdered (write_photo (record p { job = job }))
unfolding copy_photo write_photo
saver_at p none h = (h, h)
saver_at p (some j) h =
    (copy_image p j j.image p.last_photo h, write_image p j j.image p.last_photo h)

happen-IsOrdered : (e : Event) (p : Program) → IsOrdered p → IsOrdered (happen e p)
unfolding happen client_thread IsOrdered
happen-IsOrdered (photo t) p h = print_frame-IsOrdered t p h
happen-IsOrdered (told mode directory) p h = h
happen-IsOrdered saver_copies p h = (saver_at p p.job h).0
happen-IsOrdered saver_writes p h = (saver_at p p.job h).1

-- Whatever photos and messages come and whenever the saver's steps happen, a saved image is of the
-- frame that its file is named after or of a later one, and its metadata of the image's frame or of
-- a later one.
pub happen_all-IsOrdered :
    (es : List Event) (p : Program)
    → IsOrdered p
    → IsOrdered (happen_all es p) × All IsLate (happen_all es p).saved
unfolding happen_all IsOrdered
happen_all-IsOrdered [] p h = (h, h.1.1)
happen_all-IsOrdered (e ∷ es) p h = happen_all-IsOrdered es (happen e p) (happen-IsOrdered e p h)
