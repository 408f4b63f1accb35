-- ===== src/Detector/Paths.antt =====
-- facedetector.cpp: the file of a face stands beside that of the image.
use devops_workshop.Detector.{fixed_path, face_file_path, before_or_all}
use devops_workshop.Prelude.{
  ℕ, ◌<◌, ◌≡◌, ◌≢◌, refl, sym, ap, ◌∙◌, none, some, Option, [], ◌∷◌, ◌++◌, arith, append_assoc,
  length, length-append, All-append,
}
use devops_workshop.Bytes.{Text, Lacks, codes, cut_on, strip, prepend, lacks_sound}

-- A name with a dot in it does not stand where there is no dot for longer.
strip-none :
    (a b v w : Text) → Lacks b'.' v → length a < length v → strip (a ++ b'.' ∷ b) (v ++ w) ≡ none
unfolding strip
strip-none a b [] w l h = absurd (omega arith)
strip-none [] b (x ∷ v) w l h = ground arith
strip-none (p ∷ a) b (x ∷ v) w l h = ground (arith, strip-none a b v w l.1)

image_later :
    (c : ℕ) (s : Text)
    → Lacks b'.' (c ∷ s)
    → strip (codes "image.png") ((c ∷ s) ++ codes "image.png") ≡ none
image_later c s l =
    ap (strip (codes "image.png")) (sym (append_assoc (c ∷ s) (codes "image") (codes ".png")))
    ∙ strip-none (codes "image") (codes "png") ((c ∷ s) ++ codes "image") (codes ".png")
        (All-append (λ x. x ≢ b'.') (c ∷ s) (codes "image") l
          (lacks_sound b'.' (codes "image") refl))
        (omega (arith, length-append s (codes "image")))

cut_on-image :
    (s : Text) → Lacks b'.' s → cut_on (codes "image.png") (s ++ codes "image.png") ≡ some (s, [])
unfolding cut_on strip
cut_on-image [] l = refl
cut_on-image (c ∷ s) l =
    let later = prepend c (cut_on (codes "image.png") (s ++ codes "image.png")) in
    ap (λ (o : Option Text). elim o [ some r ↦ some ([], r) | none ↦ later ]) (image_later c s l)
    ∙ ap (prepend c) (cut_on-image s l.1)

-- For an image.png in a directory whose path holds no dot, the file of the face is the face.jpg in the
-- same directory.
pub face_file_path-image :
    (directory : Text)
    → Lacks b'.' directory
    → face_file_path (directory ++ codes "image.png")
      ≡ fixed_path ++ (directory ++ codes "face.jpg")
unfolding face_file_path
face_file_path-image directory l =
    ap (λ o. fixed_path ++ (before_or_all (directory ++ codes "image.png") o ++ codes "face.jpg"))
      (cut_on-image directory l)
