-- ===== src/Examples/Cleaners.antt =====
-- The cleaner of idle clients.
use fasthttp.Base.{ℕ, List, [], ◌∷◌, some, true, false}
use fasthttp.Cleaner.{CleanItem, DurationCleaner, Cleaned}

abbrev first_client : CleanItem ℕ
first_client = record { client = some 1; when = 5 }

abbrev other_client : CleanItem ℕ
other_client = record { client = some 2; when = 9 }

abbrev cleaner : DurationCleaner ℕ
cleaner = record {
  items = first_client ∷ other_client ∷ [];
  zero_when = 5;
  num_items = 2;
  clean_start = true;
  timer = 5;
  min_duration = 10;
}

abbrev called : List Cleaned
called = record { duration = 3; stop = false; now = 7; later = 7 } ∷ []
