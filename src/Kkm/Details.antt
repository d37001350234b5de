-- ===== src/Kkm/Details.antt =====
-- The details of a call of src/library/kkm/callparams.h, and the enums of types.h that they use. A
-- unit of measurement, a tax and a payment method are the driver's numbers for them.
use kkm_https_adapter.Base.{ℕ, Double, Bool, List, not, is_nil}
use kkm_https_adapter.Kkm.Driver.{WideText, Constant}

-- `int`.
pub data ℤ : Type 0 where
  pos negsuc : ℕ → ℤ

pub record PrintableText : Type 0 where
  pub content : WideText
  pub margin_outer : ℤ
  pub margin_inner : ℤ
  pub center : Bool
  pub magnified : Bool
  pub separated : Bool

-- `explicit operator bool`.
abbrev pub has_content : PrintableText → Bool
has_content t = not (is_nil t.content)

pub record PrintDetails : Type 0 where
  pub electronically : Bool
  pub document : List PrintableText
  pub cliche : Bool
  pub footer : Bool

pub record OperatorDetails : Type 0 where
  pub electronically : Bool
  pub operator_name : WideText
  pub operator_inn : WideText

pub record CashDetails : Type 0 where
  pub operator : OperatorDetails
  pub cash_sum : Double

pub record ReceiptItemDetails : Type 0 where
  pub commodity_name : WideText
  pub price : Double
  pub quantity : Double
  pub unit : ℕ
  pub tax : ℕ

pub data PaymentType : Type 0 where
  cash electronically : PaymentType

abbrev pub payment_constant : PaymentType → Constant
payment_constant cash = Constant.pt_cash
payment_constant electronically = Constant.pt_electronically

pub data ReceiptType : Type 0 where
  closed sell sell_return sell_correction sell_return_correction buy buy_return buy_correction
        buy_return_correction :
      ReceiptType

abbrev pub receipt_constant : ReceiptType → Constant
receipt_constant closed = Constant.rt_closed
receipt_constant sell = Constant.rt_sell
receipt_constant sell_return = Constant.rt_sell_return
receipt_constant sell_correction = Constant.rt_sell_correction
receipt_constant sell_return_correction = Constant.rt_sell_return_correction
receipt_constant buy = Constant.rt_buy
receipt_constant buy_return = Constant.rt_buy_return
receipt_constant buy_correction = Constant.rt_buy_correction
receipt_constant buy_return_correction = Constant.rt_buy_return_correction

pub data TextPosition : Type 0 where
  auto pre post : TextPosition

abbrev pub position_constant : TextPosition → Constant
position_constant auto = Constant.defer_none
position_constant pre = Constant.defer_pre
position_constant post = Constant.defer_post

pub record ReceiptDetails : Type 0 where
  pub operator : OperatorDetails
  pub text : PrintableText
  pub header_text : PrintableText
  pub footer_text : PrintableText
  pub seller_email : WideText
  pub customer_account : WideText
  pub customer_contact : WideText
  pub customer_name : WideText
  pub customer_inn : WideText
  pub customer_birthdate : WideText
  pub customer_citizenship : WideText
  pub customer_document_code : WideText
  pub customer_document_data : WideText
  pub customer_address : WideText
  pub electro_payment_id : WideText
  pub electro_payment_add_info : WideText
  pub items : List ReceiptItemDetails
  pub payment_sum : Double
  pub payment_type : PaymentType
  pub electro_payment_method : ℕ
  pub customer_data_is_present : Bool
  pub seller_data_is_present : Bool
  pub electro_payment_info : Bool

pub record CloseDetails : Type 0 where
  pub operator : OperatorDetails
  pub close_shift : Bool
  pub cash_out : Bool
