-- ===== src/Models/Extraction.antt =====
-- ExtractedFeedback of services/feedback_extraction.py, and PriceOpinion of models/feedback.py.
use brokerops.Base.{String, Bool, Option, none, some, List, [], ◌∷◌}
use brokerops.Base.Int.{ℤ}
use brokerops.Models.Json.{Json, Items, null, bool, int, str, arr, obj, nil, cons, end, field}
use brokerops.Models.Records.{Sentiment}

pub data PriceOpinion : Type 0 where
  overpriced fair underpriced : PriceOpinion

-- Amounts are whole dollars.
pub record ExtractedFeedback : Type 0 where
  pub sentiment : Sentiment
  pub hot_signal : Bool
  pub highlights : List String
  pub concerns : List String
  pub price_opinion : Option PriceOpinion
  pub budget_min : Option ℤ
  pub budget_max : Option ℤ
  pub desired_features : List String
  pub summary : String

unfoldable pub sentiment_value : Sentiment → String
sentiment_value Sentiment.positive = "positive"
sentiment_value Sentiment.neutral = "neutral"
sentiment_value Sentiment.negative = "negative"

unfoldable pub opinion_value : PriceOpinion → String
opinion_value overpriced = "overpriced"
opinion_value fair = "fair"
opinion_value underpriced = "underpriced"

abbrev pub texts_json : List String → Items
texts_json [] = nil
texts_json (s ∷ rest) = cons (str s) (texts_json rest)

abbrev pub optional {ℓ} : {A : Type ℓ} → (A → Json) → Option A → Json
optional f none = null
optional f (some a) = f a

-- `model_dump(mode="json")`
unfoldable pub extracted_json : ExtractedFeedback → Json
unfolding sentiment_value opinion_value
extracted_json e = obj (
    field "sentiment" (str (sentiment_value e.sentiment)) (
      field "hot_signal" (bool e.hot_signal) (
        field "highlights" (arr (texts_json e.highlights)) (
          field "concerns" (arr (texts_json e.concerns)) (
            field "price_opinion" (optional (λ p. str (opinion_value p)) e.price_opinion) (
              field "budget_min" (optional int e.budget_min) (
                field "budget_max" (optional int e.budget_max) (
                  field "desired_features" (arr (texts_json e.desired_features))
                    (field "summary" (str e.summary) end)))))))))
