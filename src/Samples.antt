-- ===== src/Samples.antt =====
-- A small database for the tests: mission 7 of buyer 1, carried by traveler 2, with a held escrow.
use waylo_app.Base.{ℕ, true, false, none, some, [], ◌∷◌, ◌==◌, if◌then◌else◌}
use waylo_app.Base.Table.{Table}
use waylo_app.Schema.Status.{
  MissionStatus, EscrowStatus, KycStatus, DeliveryProofStatus, AccountStatus,
}
use waylo_app.Schema.Rows.{User, Mission, Escrow}
use waylo_app.App.{Db, World}

abbrev pub empty_table {ℓ} : {R : Type ℓ} → Table R
empty_table = record { keys = []; row = λ k. none }

abbrev pub single {ℓ} : {R : Type ℓ} → ℕ → R → Table R
single id r = record { keys = id ∷ []; row = λ k. if k == id then some r else none }

-- budget 10_000, commission 500, in the given state
abbrev pub sample_mission : MissionStatus → Mission
sample_mission s = record {
  buyer_id = 1;
  traveler_id = some 2;
  status = s;
  target_product = [];
  budget_cents = 10_000;
  commission_cents = 500;
  substitution_authorized = true;
  origin = [];
  destination = [];
  tracking_reference = none;
  purchase_amount_cents = some 9_000;
  destination_country = none;
  customs_receipt_url = none;
  customs_receipt_sha256 = none;
  sale_signature = none;
  dropoff_receipt_url = none;
  dropoff_tracking_number = none;
  dropoff_at = none;
  drop_off_type = none;
  drop_off_carrier = none;
  drop_off_tracking_id = none;
  drop_off_access_code = none;
  dropped_at = none;
  dispute_reason = none;
  disputed_at = none;
  dispute_opened_at = none;
  dispute_deadline = none;
  auto_refund_deadline = none;
  delivery_proof_status = DeliveryProofStatus.pending;
  inner_qr_code_hash = none;
  version = 3;
  expires_at = 1_000;
  created_at = 0;
}

-- held, nothing captured
abbrev pub sample_escrow : Escrow
sample_escrow = record {
  stripe_payment_intent_id = 77;
  captured_amount_cents = 0;
  status = EscrowStatus.held;
  spending_limit_cents = 12_000;
}

-- a verified user with a Connect account
abbrev pub sample_user : User
sample_user = record {
  is_admin = false;
  kyc_status = KycStatus.verified;
  stripe_account_id = some 55;
  stripe_payment_method_id = some 56;
  stripe_customer_id = none;
  account_status = AccountStatus.active;
}

abbrev pub sample_db : MissionStatus → Db
sample_db s = record {
  users = λ u. some sample_user;
  missions = single 7 (sample_mission s);
  escrows = single 7 sample_escrow;
  ledger = [];
  transfers = empty_table;
  wallets = λ u. none;
  wallet_transactions = empty_table;
  receipts = empty_table;
  substitutions = empty_table;
  issuing_logs = empty_table;
  reviews = [];
  disputes = empty_table;
  audit_log = [];
  penalty_debits = empty_table;
  buyer_compensations = empty_table;
  penalties = empty_table;
  outbox_events = empty_table;
  processed_events = [];
}

abbrev pub sample_world : MissionStatus → World
sample_world s = record { db = sample_db s; alerts = []; calls = [] }

abbrev pub undisturbed : Db → Db
undisturbed db = db
