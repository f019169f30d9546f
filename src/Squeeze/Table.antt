-- ===== src/Squeeze/Table.antt =====
-- `TABLE` of shared/squeeze.mjs, in its order.
use lortnoc_tahc.Base.{List, [], ◌∷◌, Text}
use lortnoc_tahc.Keys.{codes}

abbrev pub table : List Text
table =
    codes " the "
    ∷ codes " and "
    ∷ codes " you "
    ∷ codes " that "
    ∷ codes " for "
    ∷ codes " with "
    ∷ codes " this "
    ∷ codes " have "
    ∷ codes " not "
    ∷ codes " are "
    ∷ codes " but "
    ∷ codes " can "
    ∷ codes " will "
    ∷ codes " when "
    ∷ codes " what "
    ∷ codes " how "
    ∷ codes " see "
    ∷ codes " get "
    ∷ codes " out "
    ∷ codes " now "
    ∷ codes " back "
    ∷ codes " here "
    ∷ codes " there "
    ∷ codes " time "
    ∷ codes " call "
    ∷ codes " meet "
    ∷ codes " bring "
    ∷ codes " take "
    ∷ codes " come "
    ∷ codes " home "
    ∷ codes " place "
    ∷ codes " same "
    ∷ codes " just "
    ∷ codes " like "
    ∷ codes " good "
    ∷ codes " they "
    ∷ codes " your "
    ∷ codes " from "
    ∷ codes " about "
    ∷ codes " know "
    ∷ codes " need "
    ∷ codes " want "
    ∷ codes " think "
    ∷ codes " thing "
    ∷ codes " number "
    ∷ codes " please "
    ∷ codes " thanks "
    ∷ codes " sorry "
    ∷ codes " tomorrow"
    ∷ codes " tonight"
    ∷ codes " today"
    ∷ codes " morning"
    ∷ codes " love"
    ∷ codes " okay"
    ∷ codes " to "
    ∷ codes " a "
    ∷ codes " is "
    ∷ codes " in "
    ∷ codes " it "
    ∷ codes " of "
    ∷ codes " on "
    ∷ codes " at "
    ∷ codes " be "
    ∷ codes " me "
    ∷ codes " my "
    ∷ codes " we "
    ∷ codes " so "
    ∷ codes " if "
    ∷ codes " do "
    ∷ codes " up "
    ∷ codes " go "
    ∷ codes " ok "
    ∷ codes " no "
    ∷ codes " i "
    ∷ codes "ing "
    ∷ codes "ing"
    ∷ codes "ed "
    ∷ codes "er "
    ∷ codes "tion"
    ∷ codes "ly "
    ∷ codes "n't"
    ∷ codes "'s "
    ∷ codes "'m "
    ∷ codes "'re "
    ∷ codes "'ll "
    ∷ codes "es "
    ∷ codes "th"
    ∷ codes "he"
    ∷ codes "in"
    ∷ codes "er"
    ∷ codes "an"
    ∷ codes "re"
    ∷ codes "on"
    ∷ codes "at"
    ∷ codes "en"
    ∷ codes "nd"
    ∷ codes "ti"
    ∷ codes "es"
    ∷ codes "or"
    ∷ codes "te"
    ∷ codes "of"
    ∷ codes "ed"
    ∷ codes "is"
    ∷ codes "it"
    ∷ codes "al"
    ∷ codes "ar"
    ∷ codes "st"
    ∷ codes "to"
    ∷ codes "nt"
    ∷ codes "ng"
    ∷ codes "se"
    ∷ codes "ha"
    ∷ codes "as"
    ∷ codes "ou"
    ∷ codes "io"
    ∷ codes "le"
    ∷ codes "ve"
    ∷ codes "co"
    ∷ codes "me"
    ∷ codes "de"
    ∷ codes "hi"
    ∷ codes "ri"
    ∷ codes "ro"
    ∷ codes "ic"
    ∷ codes "ne"
    ∷ codes "ea"
    ∷ []
