-- ===== src/BufferFile/Stored.antt =====
-- The buffer file controller as the snapshots use it.
use cloud_file_system.Base.{◌≡◌, refl, length, take_all, arith}
use cloud_file_system.Bytes.{Bytes, Str}
use cloud_file_system.Replacer.{Replacer}
use cloud_file_system.Cloud.{Cloud}
use cloud_file_system.Objects.{Objects}
use cloud_file_system.BufferFile.{Controller, received, upload_file, download_file, delete_object}

-- What is uploaded as a whole file comes back when it is downloaded.
pub download_file-upload_file :
    (replacer : Replacer) (cloud : Cloud) (k : Str) (bs : Bytes) (s : Controller replacer cloud)
    → download_file replacer cloud k (upload_file replacer cloud k bs (length bs) s) ≡ bs
unfolding download_file upload_file
download_file-upload_file replacer cloud k bs s =
    let stored = cloud.get-put_self k (length bs) bs s.bucket (omega arith) in
    rw (stored, received) (take_all (length bs) bs refl)

abbrev pub buffer_objects : Replacer → Cloud → Objects
buffer_objects replacer cloud = record {
  State = Controller replacer cloud;
  upload_file = upload_file replacer cloud;
  download_file = download_file replacer cloud;
  delete_object = delete_object replacer cloud;
  download_file-upload_file = download_file-upload_file replacer cloud;
}
