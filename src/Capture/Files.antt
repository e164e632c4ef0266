-- ===== src/Capture/Files.antt =====
-- The capture files: where a header and a buffer go, and the bounds of a file.
use mathlib.Core.List.{append-nil}
use nadrvlinux.Prelude.{
  ℕ, ◌+◌, ◌<◌, u64, List, [], ◌∷◌, ◌++◌, length, length-set, get_or-set_self, ◌==◌, if◌then◌else◌,
  ◌≡◌, refl, sym, ap, ◌∙◌, arith,
}
use nadrvlinux.Codes.{no_error, file_write_failed}
use nadrvlinux.Device.{Device, FileData, FileHeader}
use nadrvlinux.System.{
  System, Effect, file_write, file_seek, file_close, data_callback, status_callback, pure, ◌>>◌,
  modify, effect,
}
use nadrvlinux.System.Run.{Run, Run->>=, Run-if, Run-weaken}
use nadrvlinux.Capture.{
  file_header_size, size_invalid, le_bytes, header_bytes, no_file, file_at, rewind, put_header,
  sized, with_file, write_file_header, write_header, write_data,
}

-- The data that the user was given.
abbrev pub callbacks : List Effect → List (List ℕ)
callbacks [] = []
callbacks (data_callback bytes ∷ es) = bytes ∷ callbacks es
callbacks (file_write f bytes ∷ es) = callbacks es
callbacks (file_seek f n ∷ es) = callbacks es
callbacks (file_close f ∷ es) = callbacks es
callbacks (status_callback state error ∷ es) = callbacks es

pub callbacks-append : (es fs : List Effect) → callbacks (es ++ fs) ≡ callbacks es ++ callbacks fs
callbacks-append [] fs = refl
callbacks-append (data_callback bytes ∷ es) fs = ap (◌∷◌ bytes) (callbacks-append es fs)
callbacks-append (file_write f bytes ∷ es) fs = callbacks-append es fs
callbacks-append (file_seek f n ∷ es) fs = callbacks-append es fs
callbacks-append (file_close f ∷ es) fs = callbacks-append es fs
callbacks-append (status_callback state error ∷ es) fs = callbacks-append es fs

-- A disk that takes all that it is given.
abbrev pub Roomy : System → Type 0
Roomy s = (n len : ℕ) → s.accepts n len ≡ len

pub length-header_bytes : (h : FileHeader) → length (header_bytes h) ≡ file_header_size
unfolding header_bytes le_bytes
length-header_bytes h = refl

-- What is not about files.
abbrev pub rest_of : Device → Device
rest_of d = record d {
  files = [];
  file_header = record {
    cookie = 0;
    idx = 0;
    data_size = 0;
    capture_start = 0;
    timezone_correction = 0;
    reserved = 0;
  };
  current_file = 0;
}

-- A step that only touches the files, and calls no one.
pub record OnlyFiles (s s' : System) : Type 0 where
  pub same_rest : rest_of s'.device ≡ rest_of s.device
  pub same_length : length s'.device.files ≡ length s.device.files
  pub same_accepts : s'.accepts ≡ s.accepts
  pub quiet : callbacks s'.trace ≡ callbacks s.trace

pub OnlyFiles-trans : (s t u : System) → OnlyFiles s t → OnlyFiles t u → OnlyFiles s u
OnlyFiles-trans s t u p q = record {
  same_rest = q.same_rest ∙ p.same_rest;
  same_length = q.same_length ∙ p.same_length;
  same_accepts = q.same_accepts ∙ p.same_accepts;
  quiet = q.quiet ∙ p.quiet;
}

-- The current file after its header was written, at its beginning.
abbrev pub Headed : ℕ → System → System → Type 0
Headed size s s' =
    OnlyFiles s s'
    × (s'.device.current_file ≡ s.device.current_file)
    × ((file_at s'.device s.device.current_file).offset ≡ file_header_size)
    × ((file_at s'.device s.device.current_file).data_written
        ≡ (if size == size_invalid then 0 else size))

Rewound : System → System → Type 0
Rewound s t =
    OnlyFiles s t
    × (t.device.current_file ≡ s.device.current_file)
    × ((file_at t.device s.device.current_file).offset ≡ 0)

rewind-Rewound :
    (s : System) → s.device.current_file < length s.device.files → Run rewind s (λ u t. Rewound s t)
unfolding Run rewind Rewound
rewind-Rewound s h =
    Run-if ((file_at s.device s.device.current_file).offset == 0) (pure tt)
      (effect (file_seek (file_at s.device s.device.current_file).file 0)
        >> modify (with_file s.device.current_file (λ f. record f { offset = 0 })))
      s (λ u t. Rewound s t)
      (λ fresh. (
        record { same_rest = refl; same_length = refl; same_accepts = refl; quiet = refl },
        refl,
        ground arith,
      ))
      (λ used. (
        record {
          same_rest = refl;
          same_length = length-set s.device.files s.device.current_file _;
          same_accepts = refl;
          quiet = callbacks-append s.trace _ ∙ append-nil _;
        },
        refl,
        ap (λ (f : FileData). f.offset)
            (get_or-set_self s.device.files s.device.current_file _ no_file h),
      ))

put_header-lem :
    (t : System)
    → Roomy t
    → t.device.current_file < length t.device.files
    → Run put_header t (λ code t'.
      (code ≡ no_error)
      × OnlyFiles t t'
      × (t'.device.current_file ≡ t.device.current_file)
      × (file_at t'.device t.device.current_file ≡ record (file_at t.device t.device.current_file) {
        offset = u64 ((file_at t.device t.device.current_file).offset + file_header_size);
      }))
unfolding Run put_header header_bytes le_bytes
put_header-lem t roomy h =
    Run-if (t.accepts t.writes 32 == 32)
      (modify (
          with_file t.device.current_file
            (λ f. record f { offset = u64 (f.offset + file_header_size) }))
        >> pure no_error)
      (pure file_write_failed) _ _
      (λ taken. (
        refl,
        record {
          same_rest = refl;
          same_length = length-set t.device.files t.device.current_file _;
          same_accepts = refl;
          quiet = callbacks-append t.trace _ ∙ append-nil _;
        },
        refl,
        get_or-set_self t.device.files t.device.current_file _ no_file h,
      ))
      (λ short. absurd (ground (arith, roomy t.writes 32)))

-- The file as the header finds it.
sized_file :
    (size : ℕ) (t : System)
    → t.device.current_file < length t.device.files
    → let t' = record t { device = sized size t.device } in
      OnlyFiles t t'
      × (file_at t'.device t.device.current_file ≡ record (file_at t.device t.device.current_file) {
        data_written = if size == size_invalid then 0 else size;
      })
sized_file size t h = (
  record {
    same_rest = refl;
    same_length = length-set t.device.files t.device.current_file _;
    same_accepts = refl;
    quiet = refl;
  },
  get_or-set_self t.device.files t.device.current_file _ no_file h,
)

headed :
    (size : ℕ) (s t : System)
    → Roomy s
    → s.device.current_file < length s.device.files
    → Rewound s t
    → Run (modify (sized size) >> put_header) t (λ code s'. (code ≡ no_error) × Headed size s s')
unfolding Run Rewound
headed size s t roomy h (only, same, zero_offset) =
    let t1 = record t { device = sized size t.device } in
    let here : t.device.current_file < length t.device.files = omega (arith, only.same_length) in
    let (only1, at1) = sized_file size t here in
    Run-weaken put_header t1 _ (λ code s'. (code ≡ no_error) × Headed size s s')
      (put_header-lem t1 (λ n len. ap (λ (f : ℕ → ℕ → ℕ). f n len) only.same_accepts ∙ roomy n len)
        (omega (arith, only1.same_length)))
      (λ code s' (fine, only2, same2, at2). (
        fine,
        (
          OnlyFiles-trans s t s' only (OnlyFiles-trans t t1 s' only1 only2),
          same2 ∙ same,
          ap (λ n. (file_at s'.device n).offset) (sym same)
              ∙ ap (λ (f : FileData). f.offset) at2
              ∙ ap (λ n. u64 (n + file_header_size))
                  (ap (λ (f : FileData). f.offset) at1
                    ∙ ap (λ n. (file_at t.device n).offset) same
                    ∙ zero_offset),
          ap (λ n. (file_at s'.device n).data_written) (sym same)
              ∙ ap (λ (f : FileData). f.data_written) at2
              ∙ ap (λ (f : FileData). f.data_written) at1,
        ),
      ))

pub write_file_header-Headed :
    (size : ℕ) (s : System)
    → Roomy s
    → s.device.current_file < length s.device.files
    → Run (write_file_header size) s (λ code s'. (code ≡ no_error) × Headed size s s')
unfolding write_file_header Rewound
write_file_header-Headed size s roomy h =
    Run->>= rewind (λ u. modify (sized size) >> put_header) s (λ u t. Rewound s t) _
      (rewind-Rewound s h) (λ u t rewound. headed size s t roomy h rewound)

pub write_header-Headed :
    (size : ℕ) (s : System)
    → Roomy s
    → s.device.current_file < length s.device.files
    → Run (write_header size) s (λ u s'. Headed size s s')
unfolding Run
write_header-Headed size s roomy h =
    Run->>= (write_file_header size) (λ code. pure tt) s
      (λ code s'. (code ≡ no_error) × Headed size s s') _ (write_file_header-Headed size s roomy h)
      (λ code s' (fine, done). done)

-- What a buffer adds to a file.
abbrev pub Added : ℕ → ℕ → System → System → Type 0
Added n used s s' =
    OnlyFiles s s'
    × (s'.device.current_file ≡ s.device.current_file)
    × (file_at s'.device n ≡ record (file_at s.device n) {
      offset = u64 ((file_at s.device n).offset + used);
      data_written = u64 ((file_at s.device n).data_written + used);
    })

pub write_data-Added :
    (n used : ℕ) (bytes : List ℕ) (s : System)
    → n < length s.device.files
    → Run (write_data n used bytes) s (λ u s'. Added n used s s')
unfolding Run write_data
write_data-Added n used bytes s h = (
  record {
    same_rest = refl;
    same_length = length-set s.device.files n _;
    same_accepts = refl;
    quiet = callbacks-append s.trace _ ∙ append-nil _;
  },
  refl,
  get_or-set_self s.device.files n _ no_file h,
)
